-- ===== src/Stages/Signal/Bounds.antt =====
-- The least and the greatest RSSI of an accumulator that was written, evicted and loaded again.
use mesh_bug.Prelude.{
  ℕ, ◌≡◌, refl, sym, ap, ◌∙◌, false, Option, none, some, List, [], ◌∷◌, ◌++◌, arith, inl, inr,
  Bool-cases,
}
use mesh_bug.Prelude.Ints.{ℤ, pos, negsuc, ltb_ℤ}
use mesh_bug.Event.{FloatOps}
use mesh_bug.Stages.Signal.{Signal, no_signal, lower, higher, hear_rssi, load_signal, load_bound}

ltb_ℤ_connected : (a b : ℤ) → ltb_ℤ a b ≡ false → ltb_ℤ b a ≡ false → a ≡ b
ltb_ℤ_connected (pos a) (pos b) h k = ap pos (ground (arith, h, k))
ltb_ℤ_connected (pos a) (negsuc b) h k = absurd (ground (arith, h, k))
ltb_ℤ_connected (negsuc a) (pos b) h k = absurd (ground (arith, h, k))
ltb_ℤ_connected (negsuc a) (negsuc b) h k = ap negsuc (ground (arith, h, k))

lower_comm : (a b : ℤ) (m : Option ℤ) → lower a (lower b m) ≡ lower b (lower a m)
unfolding lower
lower_comm a b none = elim (Bool-cases (ltb_ℤ a b)) [
  | inl h ↦ ground (arith, h)
  | inr h ↦ elim (Bool-cases (ltb_ℤ b a)) [
    | inl k ↦ ground (arith, h, k)
    | inr k ↦ ground (arith, ltb_ℤ_connected a b h k)
  ]
]
lower_comm a b (some m) = elim (Bool-cases (ltb_ℤ a b)) [
  | inl h ↦ ground (arith, h)
  | inr h ↦ elim (Bool-cases (ltb_ℤ b a)) [
    | inl k ↦ ground (arith, h, k)
    | inr k ↦ ground (arith, ltb_ℤ_connected a b h k)
  ]
]

higher_comm : (a b : ℤ) (m : Option ℤ) → higher a (higher b m) ≡ higher b (higher a m)
unfolding higher
higher_comm a b none = elim (Bool-cases (ltb_ℤ a b)) [
  | inl h ↦ ground (arith, h)
  | inr h ↦ elim (Bool-cases (ltb_ℤ b a)) [
    | inl k ↦ ground (arith, h, k)
    | inr k ↦ ground (arith, ltb_ℤ_connected a b h k)
  ]
]
higher_comm a b (some m) = elim (Bool-cases (ltb_ℤ a b)) [
  | inl h ↦ ground (arith, h)
  | inr h ↦ elim (Bool-cases (ltb_ℤ b a)) [
    | inl k ↦ ground (arith, h, k)
    | inr k ↦ ground (arith, ltb_ℤ_connected a b h k)
  ]
]

lower_merge :
    (v : ℤ) (o m : Option ℤ) → load_bound lower (lower v o) m ≡ lower v (load_bound lower o m)
unfolding lower
lower_merge v none m = refl
lower_merge v (some x) none = ground arith
lower_merge v (some x) (some y) = ground arith

higher_merge :
    (v : ℤ) (o m : Option ℤ) → load_bound higher (higher v o) m ≡ higher v (load_bound higher o m)
unfolding higher
higher_merge v none m = refl
higher_merge v (some x) none = ground arith
higher_merge v (some x) (some y) = ground arith

-- A bound moved by each of some values.
all_of : (ℤ → Option ℤ → Option ℤ) → List ℤ → Option ℤ → Option ℤ
all_of pick [] m = m
all_of pick (v ∷ vs) m = all_of pick vs (pick v m)

module _ (pick : ℤ → Option ℤ → Option ℤ)
    (comm : (a b : ℤ) (m : Option ℤ) → pick a (pick b m) ≡ pick b (pick a m))
    (merge : (v : ℤ) (o m : Option ℤ)
      → load_bound pick (pick v o) m ≡ pick v (load_bound pick o m)) where
  all_of-pick :
      (v : ℤ) (vs : List ℤ) (m : Option ℤ) → all_of pick vs (pick v m) ≡ pick v (all_of pick vs m)
  unfolding all_of
  all_of-pick v [] m = refl
  all_of-pick v (w ∷ vs) m = ap (all_of pick vs) (comm w v m) ∙ all_of-pick v vs (pick w m)

  load-all_of :
      (ys : List ℤ) (o m : Option ℤ)
      → load_bound pick (all_of pick ys o) m ≡ all_of pick ys (load_bound pick o m)
  unfolding all_of
  load-all_of [] o m = refl
  load-all_of (y ∷ ys) o m = load-all_of ys (pick y o) m ∙ ap (all_of pick ys) (merge y o m)

  all_of_comm :
      (xs ys : List ℤ) (m : Option ℤ) → all_of pick ys (all_of pick xs m) ≡ all_of pick (ys ++ xs) m
  unfolding all_of
  all_of_comm xs [] m = refl
  all_of_comm xs (y ∷ ys) m =
      ap (all_of pick ys) (sym (all_of-pick y xs m)) ∙ all_of_comm xs ys (pick y m)

module _ {F : Type 0} (fl : FloatOps F) where
  -- The signal after packets with these values of RSSI.
  unfoldable pub hear_all : List ℤ → Signal F → Signal F
  hear_all [] s = s
  hear_all (v ∷ vs) s = hear_all vs (hear_rssi fl (some v) s)

  min-hear_all :
      (vs : List ℤ) (s : Signal F) → (hear_all vs s).min_rssi ≡ all_of lower vs s.min_rssi
  unfolding hear_all all_of hear_rssi
  min-hear_all [] s = refl
  min-hear_all (v ∷ vs) s = min-hear_all vs (hear_rssi fl (some v) s)

  max-hear_all :
      (vs : List ℤ) (s : Signal F) → (hear_all vs s).max_rssi ≡ all_of higher vs s.max_rssi
  unfolding hear_all all_of hear_rssi
  max-hear_all [] s = refl
  max-hear_all (v ∷ vs) s = max-hear_all vs (hear_rssi fl (some v) s)

  loaded_bounds :
      (avg snr : Option F) (lo hi : Option ℤ) (n : ℕ) (s : Signal F)
      → ((load_signal fl avg lo hi snr n s).min_rssi ≡ load_bound lower lo s.min_rssi)
        × ((load_signal fl avg lo hi snr n s).max_rssi ≡ load_bound higher hi s.max_rssi)
  unfolding load_signal
  loaded_bounds none none lo hi n s = (refl, refl)
  loaded_bounds none (some b) lo hi n s = (ground arith, ground arith)
  loaded_bounds (some a) none lo hi n s = (ground arith, ground arith)
  loaded_bounds (some a) (some b) lo hi n s = (ground arith, ground arith)

  -- An accumulator that heard `xs` and then loads a row whose bounds are those of `ys` has the least
  -- and the greatest of an accumulator that heard `ys` and then `xs`, whatever the row's averages
  -- and count are.
  pub load_signal-bounds :
      (xs ys : List ℤ) (avg snr : Option F) (n : ℕ)
      → let old = hear_all ys (no_signal fl) in
        let s = load_signal fl avg old.min_rssi old.max_rssi snr n (hear_all xs (no_signal fl)) in
        (s.min_rssi ≡ (hear_all (ys ++ xs) (no_signal fl)).min_rssi)
        × (s.max_rssi ≡ (hear_all (ys ++ xs) (no_signal fl)).max_rssi)
  load_signal-bounds xs ys avg snr n =
      let start = no_signal fl in
      let old = hear_all ys start in
      let (lo, hi) = loaded_bounds avg snr old.min_rssi old.max_rssi n (hear_all xs start) in
      (
        lo
            ∙ (λ i. load_bound lower (min-hear_all ys start i) (min-hear_all xs start i))
            ∙ load-all_of lower lower_comm lower_merge ys none (all_of lower xs none)
            ∙ all_of_comm lower lower_comm lower_merge xs ys none
            ∙ sym (min-hear_all (ys ++ xs) start),
        hi
            ∙ (λ i. load_bound higher (max-hear_all ys start i) (max-hear_all xs start i))
            ∙ load-all_of higher higher_comm higher_merge ys none (all_of higher xs none)
            ∙ all_of_comm higher higher_comm higher_merge xs ys none
            ∙ sym (max-hear_all (ys ++ xs) start),
      )
