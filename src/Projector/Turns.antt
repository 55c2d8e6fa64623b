-- ===== src/Projector/Turns.antt =====
-- One turn of the loop after another.
use mesh_bug.Prelude.{ℕ, suc, ◌≡◌, refl, ap, Option, some, List, ◌⊎◌, inl, inr}
use mesh_bug.Event.{Event}
use mesh_bug.Store.{Db, Result, Stage}
use mesh_bug.RawLog.{RawEvent}
use mesh_bug.Projector.{Turn, Projector, Turned, stop, again, turn, turns}

pub Turned-cases :
    {A : Type 0} (t : Turned A)
    → ((ra : Result (Unit {0}) × A) × (t ≡ stop ra.0 ra.1)) ⊎ ((a : A) × (t ≡ again a))
Turned-cases (stop r a) = inl ((r, a), refl)
Turned-cases (again a) = inr (a, refl)

module _ {F S N : Type 0} (decode : RawEvent → Option (Event F))
    (sts : List (Stage (Event F) S (Db F) N)) where
  abbrev after_turn :
      ℕ → (ℕ → Turn) → Turned (Projector F S N) → Option (Result (Unit {0}) × Projector F S N)
  after_turn n w t = elim t [
    | stop r q ↦ some (r, q)
    | again q ↦ turns decode sts n (λ i. w (suc i)) q
  ]

  pub turns-stop :
      (n : ℕ) (w : ℕ → Turn) (p q : Projector F S N) (r : Result (Unit {0}))
      → turn decode sts (w 0) p ≡ stop r q
      → turns decode sts (suc n) w p ≡ some (r, q)
  unfolding turns
  turns-stop n w p q r e = ap (after_turn n w) e

  pub turns-again :
      (n : ℕ) (w : ℕ → Turn) (p q : Projector F S N)
      → turn decode sts (w 0) p ≡ again q
      → turns decode sts (suc n) w p ≡ turns decode sts n (λ i. w (suc i)) q
  unfolding turns
  turns-again n w p q e = ap (after_turn n w) e
