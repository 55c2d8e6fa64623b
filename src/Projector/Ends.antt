-- ===== src/Projector/Ends.antt =====
-- The loop of `catchUp` ends, while events arrive and whatever is refused.
use mesh_bug.Prelude.{
  ℕ, zero, suc, ◌+◌, ◌-◌, ◌<◌, ◌≤◌, ◌≡◌, refl, ◌∙◌, ltb, Bool, true, false, Option, some, List, [],
  ◌∷◌, take, select, arith, Bool-cases, inl, inr,
}
use mesh_bug.Event.{Event}
use mesh_bug.Store.{Db, Result, err, Stage}
use mesh_bug.Pipeline.{Faults, process_batch}
use mesh_bug.RawLog.{RawEvent, fetch_raw_events_after}
use mesh_bug.Projector.Turns.{Turned-cases, turns-stop, turns-again}
use mesh_bug.Projector.{
  Turn, Projector, again, highest, decoded, turn_rows, turn, turns, catch_up, batch_size,
  projector_name,
}

-- No identifier above `m`.
abbrev pub Below : ℕ → List RawEvent → Type 0
Below m [] = Unit
Below m (r ∷ rs) = (r.id ≤ m) × Below m rs

abbrev Between : ℕ → ℕ → List RawEvent → Type 0
Between c m [] = Unit
Between c m (r ∷ rs) = ((c < r.id) × (r.id ≤ m)) × Between c m rs

select-Between :
    (c m : ℕ) (rs : List RawEvent) → Below m rs → Between c m (select (λ r. ltb c r.id) rs)
unfolding select
select-Between c m [] b = tt
select-Between c m (r ∷ rs) b = ground (arith, b.0, select-Between c m rs b.1)

take-Between : (c m n : ℕ) (rs : List RawEvent) → Between c m rs → Between c m (take n rs)
take-Between c m zero rs b = tt
take-Between c m (suc n) [] b = tt
take-Between c m (suc n) (r ∷ rs) b = (b.0, take-Between c m n rs b.1)

highest-Between :
    (c m h : ℕ) (rs : List RawEvent)
    → c < h
    → h ≤ m
    → Between c m rs
    → (c < highest h rs) × (highest h rs ≤ m)
unfolding highest
highest-Between c m h [] l u b = (l, u)
highest-Between c m h (r ∷ rs) l u b = highest-Between c m r.id rs b.0.0 b.0.1 b.1

module _ {F S N : Type 0} (decode : RawEvent → Option (Event F))
    (sts : List (Stage (Event F) S (Db F) N)) where
  rows-again :
      (m : ℕ) (rs : List RawEvent) (f : Faults) (p q : Projector F S N)
      → Between p.cursor m rs
      → turn_rows decode sts rs f p ≡ again q
      → (p.cursor < q.cursor) × (q.cursor ≤ m)
  unfolding highest
  rows-again m [] f p q b e = cc
  rows-again m (r ∷ rs) f p q b e =
      let o =
        process_batch sts (decoded decode (r ∷ rs)) projector_name (highest 0 (r ∷ rs)) f p.memory
          p.tables in
      let h = highest-Between p.cursor m r.id rs b.0.0 b.0.1 b.1 in ground (arith, h, e)

  turn-again :
      (m : ℕ) (w : Turn) (p q : Projector F S N)
      → Below m w.rows
      → turn decode sts w p ≡ again q
      → (p.cursor < q.cursor) × (q.cursor ≤ m)
  unfolding turn fetch_raw_events_after
  turn-again m w p q b e = elim (Bool-cases w.unreadable) [
    | inl u ↦ absurd (ground (arith, u, e))
    | inr u ↦
        rows-again m (fetch_raw_events_after p.cursor batch_size w.rows) w.faults p q
          (take-Between p.cursor m batch_size _ (select-Between p.cursor m w.rows b))
          (ground (arith, u, e))
  ]

  turns-end :
      (m n : ℕ) (w : ℕ → Turn) (p : Projector F S N)
      → ((i : ℕ) → Below m (w i).rows)
      → m ≤ n + p.cursor
      → (r : Result (Unit {0}) × Projector F S N) × (turns decode sts (suc n) w p ≡ some r)
  turns-end m zero w p b le = elim (Turned-cases (turn decode sts (w 0) p)) [
    | inl (r, e) ↦ (r, turns-stop decode sts zero w p r.1 r.0 e)
    | inr (q, e) ↦ absurd (omega (arith, le, turn-again m (w 0) p q (b 0) e))
  ]
  turns-end m (suc n) w p b le = elim (Turned-cases (turn decode sts (w 0) p)) [
    | inl (r, e) ↦ (r, turns-stop decode sts (suc n) w p r.1 r.0 e)
    | inr (q, e) ↦
        let (x, f) =
          turns-end m n (λ i. w (suc i)) q (λ i. b (suc i))
            (omega (arith, le, turn-again m (w 0) p q (b 0) e)) in
        (x, turns-again decode sts (suc n) w p q e ∙ f)
  ]

  -- Whatever arrives and whatever is refused between the turns, when no identifier of the log is
  -- above `m`, the loop of `catchUp` ends within one turn more than there are identifiers from the
  -- cursor to `m`.
  pub catch_up-ends :
      (m : ℕ) (unknown_target : Bool) (w : ℕ → Turn) (p : Projector F S N)
      → ((i : ℕ) → Below m (w i).rows)
      → (r : Result (Unit {0}) × Projector F S N) × (catch_up decode sts
            (suc (m - p.cursor))
            unknown_target
            w
            p
          ≡ some r)
  unfolding catch_up
  catch_up-ends m true w p b = ((err, p), refl)
  catch_up-ends m false w p b = turns-end m (m - p.cursor) w p b (omega arith)
