-- ===== src/Stages/Anomalies/Emitted.antt =====
-- The anomalies that a flush remembers for `Notify`.
use mathlib.Core.List.{append_assoc, append-nil, map-append}
use mesh_bug.Prelude.{
  ℕ, ◌+◌, ◌≡◌, refl, sym, ap, ◌∙◌, Bool, true, false, Option, none, some, List, [], ◌∷◌, ◌++◌,
  Bytes, map, if◌then◌else◌, arith,
}
use mesh_bug.Event.{Time, is_zero, truncate}
use mesh_bug.Store.{Tx, Result, ok, err, continue, query, modify}
use mesh_bug.Stages.Anomalies.Keeps.{Keeps, run_minutes-Keeps}
use mesh_bug.Stages.Anomalies.{
  AnomalyRow, EmittedAnomaly, Tables, Finding, Detector, State, detection_cadence, exists,
  suppresses, new_row, insert, remember, stored, emit, run_minutes, set_cursor, flush,
}

abbrev pub summary : AnomalyRow → EmittedAnomaly
summary r = record { id = r.id; kind = r.kind; severity = r.severity }

-- `new` was inserted and remembered since `s` and `d`.
pub record Grown {R : Type 0} (s : State) (d : Tables R) (s' : State) (d' : Tables R) : Type 0 where
  pub new : List AnomalyRow
  pub rows : d'.anomalies ≡ d.anomalies ++ new
  pub remembered : s'.emitted ≡ s.emitted ++ map summary new
  pub others : d'.others ≡ d.others

Grown-refl : {R : Type 0} (s : State) (d : Tables R) → Grown s d s d
Grown-refl s d = record {
  new = [];
  rows = sym (append-nil d.anomalies);
  remembered = sym (append-nil s.emitted);
  others = refl;
}

-- one more row
Grown-snoc :
    {R : Type 0} (s s' : State) (d d' : Tables R) (q : AnomalyRow) (n : ℕ)
    → Grown s d s' d'
    → Grown s d
        (record s' { emitted = s'.emitted ++ summary q ∷ [] })
        (record d' { anomalies = d'.anomalies ++ q ∷ []; next_id = n })
Grown-snoc s s' d d' q n g = record {
  new = g.new ++ q ∷ [];
  rows = ap (λ rs. rs ++ q ∷ []) g.rows ∙ append_assoc d.anomalies g.new (q ∷ []);
  remembered =
      ap (λ es. es ++ summary q ∷ []) g.remembered
      ∙ append_assoc s.emitted (map summary g.new) (summary q ∷ [])
      ∙ ap (s.emitted ++◌) (sym (map-append summary g.new (q ∷ [])));
  others = g.others;
}

module _ {R J : Type 0} (marshal : J → Option Bytes) (s₀ : State) (d₀ : Tables R) where
  insert-Grown :
      (t : Time) (kind : Bytes) (f : Finding J) (details : Bytes) (s : State) (d : Tables R)
      → Grown s₀ d₀ s d
      → let w = insert marshal t kind f details d in Grown s₀ d₀ (remember kind f w.0 s) w.1
  unfolding insert
  insert-Grown t kind f details s d g =
      by_test (exists (suppresses t kind f.subject_id) d.anomalies)
    where
      by_test :
          (b : Bool)
          → let w : Option ℕ × Tables R = if b then (none, d) else (
            some d.next_id,
            record d {
              anomalies = d.anomalies ++ new_row d.next_id t kind f details ∷ [];
              next_id = d.next_id + 1;
            },
          ) in
            Grown s₀ d₀ (remember kind f w.0 s) w.1
      by_test true = g
      by_test false = Grown-snoc s₀ s d₀ d (new_row d.next_id t kind f details) (d.next_id + 1) g

  emit-Grown :
      (t : Time) (kind : Bytes) (f : Finding J)
      → Keeps {R = R} (Grown s₀ d₀) (emit marshal t kind f)
  unfolding emit query modify
  emit-Grown t kind f = by_details (marshal f.details)
    where
      by_faults :
          (details : Bytes) (s : State) (d : Tables R) (fs : List Bool)
          → Grown s₀ d₀ s d
          → let r = stored marshal t kind f (some details) s (record { db = d; faults = fs }) in
            Grown s₀ d₀ r.1 r.2.db
      by_faults details s d [] g = insert-Grown t kind f details s d g
      by_faults details s d (true ∷ fs) g = g
      by_faults details s d (false ∷ fs) g = insert-Grown t kind f details s d g

      by_details : (o : Option Bytes) → Keeps {R = R} (Grown s₀ d₀) (stored marshal t kind f o)
      by_details none = λ s tx g. g
      by_details (some details) = λ s tx g. by_faults details s tx.db tx.faults g

module _ {R J : Type 0} (marshal : J → Option Bytes) (dets : List (Detector R J)) where
  -- Whatever the detectors find and the server refuses, with or without an error, a flush adds rows
  -- behind the others, remembers for `Notify` exactly these rows, in order, with their identifiers,
  -- kinds and severities, behind what it remembered before, and changes no other table.
  pub flush-Grown :
      (s : State) (tx : Tx (Tables R))
      → let (_, s', tx') = flush marshal dets s tx in Grown s tx.db s' tx'.db
  unfolding flush modify
  flush-Grown s tx = by_tests (is_zero s.hwm) (is_zero s.cursor)
    where
      end : Time
      end = truncate s.hwm detection_cadence

      loop : Result (Unit {0}) × State × Tx (Tables R)
      loop = run_minutes marshal dets (end + 1) (s.cursor + detection_cadence) end s tx

      after_loop :
          (r : Result (Unit {0})) (s' : State) (tx' : Tx (Tables R))
          → Grown s tx.db s' tx'.db
          → let w = continue r (λ _. modify (set_cursor end)) s' tx' in Grown s tx.db w.1 w.2.db
      after_loop err s' tx' g = g
      after_loop (ok _) s' tx' g = record {
        new = g.new;
        rows = g.rows;
        remembered = g.remembered;
        others = g.others;
      }

      by_tests :
          (a b : Bool)
          → let w : Result (Unit {0}) × State × Tx (Tables R) =
              (if a
                then (ok tt, s, tx)
                else if b
                then (ok tt, set_cursor end s, tx)
                else continue loop.0 (λ _. modify (set_cursor end)) loop.1 loop.2) in
            Grown s tx.db w.1 w.2.db
      by_tests true b = Grown-refl s tx.db
      by_tests false true = record {
        new = [];
        rows = sym (append-nil tx.db.anomalies);
        remembered = sym (append-nil s.emitted);
        others = refl;
      }
      by_tests false false = after_loop loop.0 loop.1 loop.2 (
          run_minutes-Keeps marshal (λ _ s' d'. Grown s tx.db s' d')
            (λ t kind f. emit-Grown marshal s tx.db t kind f) (λ t u s' d l g. g) dets (end + 1) 0
            (s.cursor + detection_cadence) end end (omega arith) (omega arith) (omega arith) s tx
            (Grown-refl s tx.db))
