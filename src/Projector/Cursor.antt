-- ===== src/Projector/Cursor.antt =====
-- The cursor in memory and the cursor in the tables.
use mathlib.Core.List.{lookup}
use mesh_bug.Prelude.{
  ℕ, zero, suc, ◌<◌, ◌≤◌, ◌≡◌, sym, subst, ◌∙◌, ltb, Bool, true, false, Option, some, List, [], ◌∷◌,
  length, take, select, if◌then◌else◌, arith, Bool-cases, inl, inr, bytes_discrete,
}
use mesh_bug.Event.{Event}
use mesh_bug.Store.{Db, Result, ok, err, Stage}
use mesh_bug.Pipeline.{Faults, Outcome}
use mesh_bug.Pipeline.Atomic.{Atomic, process_batch-Atomic}
use mesh_bug.RawLog.{RawEvent, fetch_raw_events_after}
use mesh_bug.Projector.Turns.{Turned-cases, turns-stop, turns-again}
use mesh_bug.Projector.{
  Turn, Projector, Turned, stop, again, highest, decoded, left_by, after_batch, turn_rows, turn,
  turns, catch_up, batch_size, projector_name,
}

abbrev Over : ℕ → List RawEvent → Type 0
Over c [] = Unit
Over c (r ∷ rs) = (c < r.id) × Over c rs

select-Over : (c : ℕ) (rs : List RawEvent) → Over c (select (λ r. ltb c r.id) rs)
unfolding select
select-Over c [] = tt
select-Over c (r ∷ rs) = ground (arith, select-Over c rs)

take-Over : (c n : ℕ) (rs : List RawEvent) → Over c rs → Over c (take n rs)
take-Over c zero rs b = tt
take-Over c (suc n) [] b = tt
take-Over c (suc n) (r ∷ rs) b = (b.0, take-Over c n rs b.1)

highest-Over : (c h : ℕ) (rs : List RawEvent) → c < h → Over c rs → c < highest h rs
unfolding highest
highest-Over c h [] l b = l
highest-Over c h (r ∷ rs) l b = highest-Over c r.id rs b.0 b.1

above : {c : ℕ} (r : RawEvent) (rs : List RawEvent) → Over c (r ∷ rs) → c < highest 0 (r ∷ rs)
unfolding highest
above {c} r rs b = highest-Over c r.id rs b.0 b.1

stopped :
    {A B : Type 0} (a b : B) (r s : A)
    → ◌≡◌ {A = Option (A × B)} (some (r, a)) (some (s, b))
    → a ≡ b
stopped a b r s e = cc

module _ {F S N : Type 0} (decode : RawEvent → Option (Event F))
    (sts : List (Stage (Event F) S (Db F) N)) where
  -- The tables hold the cursor of the memory, which is at least `c`.
  abbrev pub Kept : ℕ → Projector F S N → Type 0
  Kept c p =
      (lookup bytes_discrete projector_name p.tables.projector_state ≡ some p.cursor)
      × (c ≤ p.cursor)

  abbrev KeptTurn : ℕ → Turned (Projector F S N) → Type 0
  KeptTurn c (stop r q) = Kept c q
  KeptTurn c (again q) = Kept c q

  left_by-Kept :
      (n h : ℕ) (o : Outcome F S N) (p : Projector F S N)
      → p.cursor < h
      → lookup bytes_discrete projector_name o.tables.projector_state ≡ some h
      → KeptTurn p.cursor (after_batch decode sts n h p (ok tt) o)
  left_by-Kept n h o p l e = elim (Bool-cases (ltb n batch_size)) [
    | inl s ↦
        subst
          (λ b.
            KeptTurn p.cursor
              (if b then stop (ok tt) (left_by decode sts h o) else again (left_by decode sts h o)))
          (sym s) (e, omega (arith, l))
    | inr s ↦
        subst
          (λ b.
            KeptTurn p.cursor
              (if b then stop (ok tt) (left_by decode sts h o) else again (left_by decode sts h o)))
          (sym s) (e, omega (arith, l))
  ]

  after_batch-Kept :
      (n h : ℕ) (o : Outcome F S N) (p : Projector F S N)
      → Kept p.cursor p
      → p.cursor < h
      → Atomic projector_name h p.tables o
      → KeptTurn p.cursor (after_batch decode sts n h p o.result o)
  after_batch-Kept n h o p k l (inl (e, t, u)) =
      subst (λ x. KeptTurn p.cursor (after_batch decode sts n h p x o)) (sym e)
        (
          subst
              (λ (d : Db F). lookup bytes_discrete projector_name d.projector_state ≡ some p.cursor)
              (sym t) k.0,
          omega arith,
        )
  after_batch-Kept n h o p k l (inr (e, t)) =
      subst (λ x. KeptTurn p.cursor (after_batch decode sts n h p x o)) (sym e)
        (left_by-Kept n h o p l t)

  rows-Kept :
      (rs : List RawEvent) (f : Faults) (p : Projector F S N)
      → Over p.cursor rs
      → Kept p.cursor p
      → KeptTurn p.cursor (turn_rows decode sts rs f p)
  rows-Kept [] f p b k = k
  rows-Kept (r ∷ rs) f p b k =
      let h = highest 0 (r ∷ rs) in
      let l : p.cursor < h = above r rs b in
      after_batch-Kept (length (r ∷ rs)) h _ p k l (
        process_batch-Atomic sts (decoded decode (r ∷ rs)) projector_name h f p.memory p.tables
          (omega (arith, l)))

  turn-Kept :
      (w : Turn) (p : Projector F S N) → Kept p.cursor p → KeptTurn p.cursor (turn decode sts w p)
  unfolding turn fetch_raw_events_after
  turn-Kept w p k = elim (Bool-cases w.unreadable) [
    | inl u ↦ subst (λ b. KeptTurn p.cursor (if b then stop err p else rest)) (sym u) k
    | inr u ↦
        subst (λ b. KeptTurn p.cursor (if b then stop err p else rest)) (sym u)
          (rows-Kept (fetch_raw_events_after p.cursor batch_size w.rows) w.faults p
            (take-Over p.cursor batch_size _ (select-Over p.cursor w.rows)) k)
  ]
    where
      rest : Turned (Projector F S N)
      rest = turn_rows decode sts (fetch_raw_events_after p.cursor batch_size w.rows) w.faults p

  turns-Kept :
      (n : ℕ) (w : ℕ → Turn) (p q : Projector F S N) (r : Result (Unit {0}))
      → Kept p.cursor p
      → turns decode sts n w p ≡ some (r, q)
      → Kept p.cursor q
  unfolding turns
  turns-Kept zero w p q r k e = cc
  turns-Kept (suc n) w p q r k e = elim (Turned-cases (turn decode sts (w 0) p)) [
    | inl ((r', q'), f) ↦
        let same : q' ≡ q = stopped q' q r' r (sym (turns-stop decode sts n w p q' r' f) ∙ e) in
        subst (Kept p.cursor) same (subst (KeptTurn p.cursor) f (turn-Kept (w 0) p k))
    | inr (q', f) ↦
        let k' = subst (KeptTurn p.cursor) f (turn-Kept (w 0) p k) in
        let k'' =
          turns-Kept n (λ i. w (suc i)) q' q r (k'.0, omega arith)
            (sym (turns-again decode sts n w p q' f) ∙ e) in
        (k''.0, omega (arith, k'.1, k''.1))
  ]

  -- Whatever arrives between the turns and whatever the databases refuse, when the tables hold the
  -- cursor of the memory, they hold it again when `catchUp` returns, with or without an error, and
  -- it has not gone back.
  pub catch_up-Kept :
      (fuel : ℕ) (unknown_target : Bool) (w : ℕ → Turn) (p q : Projector F S N)
      (r : Result (Unit {0}))
      → lookup bytes_discrete projector_name p.tables.projector_state ≡ some p.cursor
      → catch_up decode sts fuel unknown_target w p ≡ some (r, q)
      → (lookup bytes_discrete projector_name q.tables.projector_state ≡ some q.cursor)
        × (p.cursor ≤ q.cursor)
  unfolding catch_up
  catch_up-Kept fuel true w p q r k e = subst (Kept p.cursor) (stopped p q err r e) (k, omega arith)
  catch_up-Kept fuel false w p q r k e = turns-Kept fuel w p q r (k, omega arith) e
