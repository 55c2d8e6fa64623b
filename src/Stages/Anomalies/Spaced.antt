-- ===== src/Stages/Anomalies/Spaced.antt =====
-- How far apart the anomalies of one condition stand.
use mesh_bug.Prelude.{
  ℕ, ◌+◌, ◌<◌, ◌≤◌, ◌≡◌, refl, sym, subst, ltb, Bool, true, false, Option, none, some, List, [],
  ◌∷◌, ◌++◌, Bytes, Slice, if◌then◌else◌, ◌⊎◌, inl, inr, arith, Bool-cases,
}
use mesh_bug.Event.{Time, is_zero, truncate}
use mesh_bug.Store.{Tx, Result, ok, err, continue, query, modify}
use mesh_bug.Stages.Anomalies.Keeps.{Keeps, run_minutes-Keeps}
use mesh_bug.Stages.Anomalies.{
  AnomalyRow, Tables, Finding, Detector, State, dedup_window, detection_cadence, suppresses,
  same_kind, same_subject, unresolved, exists, new_row, insert, remember, stored, emit, run_minutes,
  set_cursor, flush,
}

-- Two rows of one kind and subject, the first unresolved: the same minute, or further apart than
-- the window.
abbrev pub Apart : AnomalyRow → AnomalyRow → Type 0
Apart r q =
    same_kind r.kind q.kind ≡ true
    → same_subject r.subject_id q.subject_id ≡ true
    → unresolved r.resolved_at ≡ true
    → (r.ts ≡ q.ts) ⊎ (r.ts + dedup_window < q.ts)

abbrev pub AllAfter : AnomalyRow → List AnomalyRow → Type 0
AllAfter r [] = Unit
AllAfter r (q ∷ qs) = Apart r q × AllAfter r qs

abbrev pub Spaced : List AnomalyRow → Type 0
Spaced [] = Unit
Spaced (r ∷ rs) = AllAfter r rs × Spaced rs

-- No row later than `t`.
abbrev pub UpTo : Time → List AnomalyRow → Type 0
UpTo t [] = Unit
UpTo t (r ∷ rs) = (r.ts ≤ t) × UpTo t rs

pub UpTo-mono : (t u : Time) (rs : List AnomalyRow) → t ≤ u → UpTo t rs → UpTo u rs
UpTo-mono t u [] le h = tt
UpTo-mono t u (r ∷ rs) le h = (omega (arith, le, h.0), UpTo-mono t u rs le h.1)

UpTo-snoc :
    (t : Time) (rs : List AnomalyRow) (q : AnomalyRow)
    → UpTo t rs
    → q.ts ≤ t
    → UpTo t (rs ++ q ∷ [])
UpTo-snoc t [] q h l = (l, tt)
UpTo-snoc t (r ∷ rs) q h l = (h.0, UpTo-snoc t rs q h.1 l)

AllAfter-snoc :
    (r : AnomalyRow) (rs : List AnomalyRow) (q : AnomalyRow)
    → AllAfter r rs
    → Apart r q
    → AllAfter r (rs ++ q ∷ [])
AllAfter-snoc r [] q h a = (a, tt)
AllAfter-snoc r (p ∷ rs) q h a = (h.0, AllAfter-snoc r rs q h.1 a)

apart :
    (t : Time) (kind : Bytes) (subject : Slice) (r : AnomalyRow)
    → suppresses t kind subject r ≡ false
    → r.ts ≤ t
    → same_kind r.kind kind ≡ true
    → same_subject r.subject_id subject ≡ true
    → unresolved r.resolved_at ≡ true
    → (r.ts ≡ t) ⊎ (r.ts + dedup_window < t)
unfolding suppresses
apart t kind subject r h le k s u = elim (Bool-cases (ltb r.ts t)) [
  | inl b ↦ inr (ground (arith, h, k, s, u, b))
  | inr b ↦ inl (ground (arith, le, b))
]

-- A row that nothing suppresses can stand behind the others.
Spaced-snoc :
    (rs : List AnomalyRow) (q : AnomalyRow)
    → Spaced rs
    → UpTo q.ts rs
    → exists (suppresses q.ts q.kind q.subject_id) rs ≡ false
    → Spaced (rs ++ q ∷ [])
unfolding exists
Spaced-snoc [] q s u e = (tt, tt)
Spaced-snoc (r ∷ rs) q s u e = elim (Bool-cases (suppresses q.ts q.kind q.subject_id r)) [
  | inl b ↦ absurd (ground (arith, b, e))
  | inr b ↦ (
    AllAfter-snoc r rs q s.0 (apart q.ts q.kind q.subject_id r b u.0),
    Spaced-snoc rs q s.1 u.1 (ground (arith, b, e)),
  )
]

-- The memory's times, and the table, at minute `t`.
abbrev pub Kept : {R : Type 0} → Time → Time → Time → State → Tables R → Type 0
Kept c h t s d = (s.cursor ≡ c) × (s.hwm ≡ h) × Spaced d.anomalies × UpTo t d.anomalies

Kept-mono :
    {R : Type 0} (c h t u : Time) (s : State) (d : Tables R)
    → t ≤ u
    → Kept c h t s d
    → Kept c h u s d
Kept-mono c h t u s d le (a, b, k, l) = (a, b, k, UpTo-mono t u d.anomalies le l)

module _ {R J : Type 0} (marshal : J → Option Bytes) (c h : Time) where
  insert-Spaced :
      (t : Time) (kind : Bytes) (f : Finding J) (details : Bytes) (d : Tables R)
      → Spaced d.anomalies × UpTo t d.anomalies
      → let d' = (insert marshal t kind f details d).1 in Spaced d'.anomalies × UpTo t d'.anomalies
  unfolding insert
  insert-Spaced t kind f details d k =
      by_test (exists (suppresses t kind f.subject_id) d.anomalies) refl
    where
      chosen : Bool → Tables R
      chosen b =
          let w : Option ℕ × Tables R =
            (if b then (none, d) else (
              some d.next_id,
              record d {
                anomalies = d.anomalies ++ new_row d.next_id t kind f details ∷ [];
                next_id = d.next_id + 1;
              },
            )) in
          w.1

      by_test :
          (b : Bool)
          → exists (suppresses t kind f.subject_id) d.anomalies ≡ b
          → Spaced (chosen b).anomalies × UpTo t (chosen b).anomalies
      by_test true e = k
      by_test false e = (
        Spaced-snoc d.anomalies (new_row d.next_id t kind f details) k.0 k.1 e,
        UpTo-snoc t d.anomalies _ k.1 (omega arith),
      )

  emit-Kept :
      (t : Time) (kind : Bytes) (f : Finding J) → Keeps {R = R} (Kept c h t) (emit marshal t kind f)
  unfolding emit query modify
  emit-Kept t kind f = by_details (marshal f.details)
    where
      remembered :
          (id : Option ℕ) (s : State) (d : Tables R)
          → Kept c h t s d
          → Kept c h t (remember kind f id s) d
      remembered none s d k = k
      remembered (some id) s d k = k

      by_faults :
          (details : Bytes) (s : State) (d : Tables R) (fs : List Bool)
          → Kept c h t s d
          → let r = stored marshal t kind f (some details) s (record { db = d; faults = fs }) in
            Kept c h t r.1 r.2.db
      by_faults details s d [] (a, b, k, l) =
          let x = insert-Spaced t kind f details d (k, l) in
          remembered (insert marshal t kind f details d).0 s (insert marshal t kind f details d).1
            (a, b, x.0, x.1)
      by_faults details s d (true ∷ fs) k = k
      by_faults details s d (false ∷ fs) (a, b, k, l) =
          let x = insert-Spaced t kind f details d (k, l) in
          remembered (insert marshal t kind f details d).0 s (insert marshal t kind f details d).1
            (a, b, x.0, x.1)

      by_details : (o : Option Bytes) → Keeps {R = R} (Kept c h t) (stored marshal t kind f o)
      by_details none = λ s tx k. k
      by_details (some details) = λ s tx k. by_faults details s tx.db tx.faults k

-- The last minute that was looked at, or at which a first batch starts.
abbrev pub seen : State → Time
seen s = if is_zero s.cursor then truncate s.hwm detection_cadence else s.cursor

-- The memory and the committed table: the table is spaced and not ahead of the memory.
pub record Sound {R : Type 0} (s : State) (d : Tables R) : Type 0 where
  pub spaced : Spaced d.anomalies
  pub up_to : UpTo (seen s) d.anomalies
  pub behind : seen s ≤ truncate s.hwm detection_cadence

module _ {R J : Type 0} (marshal : J → Option Bytes) (dets : List (Detector R J)) where
  -- What a flush leaves: the rows of the transaction, and in memory the last minute of the batch
  -- or, after an error, the old one.
  flush-minutes :
      (s : State) (tx : Tx (Tables R)) (end : Time)
      → Spaced tx.db.anomalies
      → UpTo s.cursor tx.db.anomalies
      → s.cursor ≤ end
      → Kept s.cursor s.hwm end
          (run_minutes marshal dets (end + 1) (s.cursor + detection_cadence) end s tx).1
          (run_minutes marshal dets (end + 1) (s.cursor + detection_cadence) end s tx).2.db
  flush-minutes s tx end k u le =
      run_minutes-Keeps marshal (Kept s.cursor s.hwm)
        (λ t kind f. emit-Kept marshal s.cursor s.hwm t kind f)
        (λ t u s' d l. Kept-mono s.cursor s.hwm t u s' d l) dets (end + 1) s.cursor
        (s.cursor + detection_cadence) end end (omega arith) (omega arith) le s tx
        (refl, refl, k, u)

  -- The tables after the flush if the batch commits, and the memory in either case.
  abbrev pub Flushed : State → Tables R → Result (Unit {0}) × State × Tx (Tables R) → Type 0
  Flushed s d (ok _, s', tx') = Sound s' tx'.db × Sound s' d
  Flushed s d (err, s', tx') = Sound s' d

  cursor-Sound :
      (s s' : State) (d : Tables R) (end : Time)
      → s'.hwm ≡ s.hwm
      → end ≡ truncate s.hwm detection_cadence
      → Spaced d.anomalies
      → UpTo end d.anomalies
      → Sound (set_cursor end s') d
  cursor-Sound s s' d end h e k u =
      let same : seen (set_cursor end s') ≡ end = ground (arith, h, e) in
      record {
        spaced = k;
        up_to = subst (λ t. UpTo t d.anomalies) (sym same) u;
        behind = ground (arith, same, h, e);
      }

  same-Sound :
      (s s' : State) (d : Tables R) → s'.cursor ≡ s.cursor → s'.hwm ≡ s.hwm → Sound s d → Sound s' d
  same-Sound s s' d c h o =
      let same : seen s' ≡ seen s = ground (arith, c, h) in
      record {
        spaced = o.spaced;
        up_to = subst (λ t. UpTo t d.anomalies) (sym same) o.up_to;
        behind = ground (arith, same, h, o.behind);
      }

  pub flush-Flushed :
      (s : State) (d : Tables R) (faults : List Bool)
      → Sound s d
      → Flushed s d (flush marshal dets s (record { db = d; faults = faults }))
  unfolding flush modify
  flush-Flushed s d faults o = by_tests (is_zero s.hwm) (is_zero s.cursor) refl refl
    where
      tx : Tx (Tables R)
      tx = record { db = d; faults = faults }

      end : Time
      end = truncate s.hwm detection_cadence

      loop : Result (Unit {0}) × State × Tx (Tables R)
      loop = run_minutes marshal dets (end + 1) (s.cursor + detection_cadence) end s tx

      chosen : Bool → Bool → Result (Unit {0}) × State × Tx (Tables R)
      chosen a b =
          if a
          then (ok tt, s, tx)
          else if b
          then (ok tt, set_cursor end s, tx)
          else continue loop.0 (λ _. modify (set_cursor end)) loop.1 loop.2

      before_end : UpTo end d.anomalies
      before_end = UpTo-mono (seen s) end d.anomalies o.behind o.up_to

      after_loop :
          (r : Result (Unit {0})) (s' : State) (tx' : Tx (Tables R))
          → Kept s.cursor s.hwm end s' tx'.db
          → Flushed s d (continue r (λ _. modify (set_cursor end)) s' tx')
      after_loop err s' tx' (c, h, k, u) = same-Sound s s' d c h o
      after_loop (ok _) s' tx' (c, h, k, u) = (
        cursor-Sound s s' tx'.db end h refl k u,
        cursor-Sound s s' d end h refl o.spaced before_end,
      )

      by_tests : (a b : Bool) → is_zero s.hwm ≡ a → is_zero s.cursor ≡ b → Flushed s d (chosen a b)
      by_tests true b e f = (o, o)
      by_tests false true e f = (
        cursor-Sound s s d end refl refl o.spaced before_end,
        cursor-Sound s s d end refl refl o.spaced before_end,
      )
      by_tests false false e f =
          let at : seen s ≡ s.cursor = ground (arith, f) in
          after_loop loop.0 loop.1 loop.2 (
            flush-minutes s tx end o.spaced (subst (λ t. UpTo t d.anomalies) at o.up_to)
              (ground (arith, at, o.behind)))
