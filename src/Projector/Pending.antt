-- ===== src/Projector/Pending.antt =====
-- The rows that a batch takes from a log in ascending order, and those that it leaves.
use mesh_bug.Prelude.{
  ℕ, zero, suc, ◌<◌, ◌≤◌, ◌≡◌, refl, ap, ltb, Option, List, [], ◌∷◌, ◌++◌, take, select, arith,
}
use mesh_bug.Event.{Event}
use mesh_bug.RawLog.{RawEvent, fetch_raw_events_after}
use mesh_bug.Projector.{highest, decoded}

abbrev pub drop : {A : Type 0} → ℕ → List A → List A
drop zero xs = xs
drop (suc n) [] = []
drop (suc n) (x ∷ xs) = drop n xs

-- Strictly ascending identifiers above `lo`.
abbrev pub Above : ℕ → List RawEvent → Type 0
Above lo [] = Unit
Above lo (r ∷ rs) = (lo < r.id) × Above r.id rs

pub take-drop : {A : Type 0} (n : ℕ) (xs : List A) → take n xs ++ drop n xs ≡ xs
take-drop zero xs = refl
take-drop (suc n) [] = refl
take-drop (suc n) (x ∷ xs) = ap (x ∷◌) (take-drop n xs)

pub highest-append :
    (h : ℕ) (xs ys : List RawEvent) → highest h (xs ++ ys) ≡ highest (highest h xs) ys
unfolding highest
highest-append h [] ys = refl
highest-append h (x ∷ xs) ys = highest-append x.id xs ys

pub Above-append : (lo : ℕ) (xs ys : List RawEvent) → Above lo (xs ++ ys) → Above (highest lo xs) ys
unfolding highest
Above-append lo [] ys h = h
Above-append lo (x ∷ xs) ys h = Above-append x.id xs ys h.1

pub Above-front : (lo : ℕ) (xs ys : List RawEvent) → Above lo (xs ++ ys) → Above lo xs
Above-front lo [] ys h = tt
Above-front lo (x ∷ xs) ys h = (h.0, Above-front x.id xs ys h.1)

pub highest_le : (lo : ℕ) (xs : List RawEvent) → Above lo xs → lo ≤ highest lo xs
unfolding highest
highest_le lo [] h = omega arith
highest_le lo (x ∷ xs) h = omega (arith, h.0, highest_le x.id xs h.1)

select-Above :
    (lo c : ℕ) (xs : List RawEvent) → c ≤ lo → Above lo xs → select (λ r. ltb c r.id) xs ≡ xs
unfolding select
select-Above lo c [] le h = refl
select-Above lo c (x ∷ xs) le h =
    ground (arith, h.0, le, select-Above x.id c xs (omega (arith, h.0, le)) h.1)

-- What follows the cursor.
pub select-highest :
    (lo : ℕ) (xs ys : List RawEvent)
    → Above lo (xs ++ ys)
    → select (λ r. ltb (highest lo xs) r.id) (xs ++ ys) ≡ ys
unfolding select highest
select-highest lo [] ys h = select-Above lo lo ys (omega arith) h
select-highest lo (x ∷ xs) ys h =
    ground (arith, select-highest x.id xs ys h.1, highest_le x.id xs (Above-front x.id xs ys h.1))

pub fetch_pending :
    (xs ys : List RawEvent) (n : ℕ)
    → Above 0 (xs ++ ys)
    → fetch_raw_events_after (highest 0 xs) n (xs ++ ys) ≡ take n ys
unfolding fetch_raw_events_after
fetch_pending xs ys n h = ap (take n) (select-highest 0 xs ys h)

module _ {F : Type 0} (decode : RawEvent → Option (Event F)) where
  pub decoded-append :
      (xs ys : List RawEvent) → decoded decode (xs ++ ys) ≡ decoded decode xs ++ decoded decode ys
  unfolding decoded
  decoded-append [] ys = refl
  decoded-append (x ∷ xs) ys = ground (arith, decoded-append xs ys)
