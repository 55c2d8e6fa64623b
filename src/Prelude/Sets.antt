-- ===== src/Prelude/Sets.antt =====
-- Go sets `map[K]struct{}`: lists without repetition, compared by their members.
use Prim.Native.Nat.{ℕ, ◌+◌, ◌≤◌}
use mathlib.Core.Path.{◌≡◌, refl, sym, ◌∙◌}
use mathlib.Core.Logic.{ite, if_pos, ◌⊎◌, inl, inr}
use mathlib.Core.Bool.{Bool, true, false, ◌||◌}
use mathlib.Core.List.{List, [], ◌∷◌, ◌++◌}
use native.Mathlib.Nat.{le_antisymm}
use native.Mathlib.Omega.{arith}
use mesh_bug.Prelude.Tests.{if◌then◌else◌}
use mesh_bug.Prelude.Lists.{length}

module _ {K : Type 0} (dec : Discrete K) where
  unfoldable pub contains : K → List K → Bool
  contains k [] = false
  contains k (x ∷ xs) = ite (dec x k) true (contains k xs)

  -- s[k] = struct{}{}
  unfoldable pub add : K → List K → List K
  unfolding contains
  add k s = if contains k s then s else k ∷ s

  -- for _, k := range ks { s[k] = struct{}{} }
  unfoldable pub add_all : List K → List K → List K
  unfolding add
  add_all [] s = s
  add_all (k ∷ ks) s = add_all ks (add k s)

  -- The number of distinct members of a list.
  unfoldable pub distinct : List K → ℕ
  unfolding add_all
  distinct ks = length (add_all ks [])

  abbrev pub IsSetList : List K → Type 0
  IsSetList [] = Unit
  IsSetList (x ∷ xs) = (contains x xs ≡ false) × IsSetList xs

  pub contains-add :
      (j k : K) (s : List K) → contains j (add k s) ≡ ite (dec k j) true (contains j s)
  unfolding add
  contains-add j k s = ground arith

  pub add-IsSetList : (k : K) (s : List K) → IsSetList s → IsSetList (add k s)
  unfolding add
  add-IsSetList k s h = ground arith

  pub contains-append :
      (j : K) (xs ys : List K) → contains j (xs ++ ys) ≡ (contains j xs || contains j ys)
  unfolding contains
  contains-append j [] ys = refl
  contains-append j (x ∷ xs) ys = ground (arith, contains-append j xs ys)

  pub contains-add_all :
      (j : K) (ks s : List K) → contains j (add_all ks s) ≡ (contains j ks || contains j s)
  unfolding add_all contains
  contains-add_all j [] s = refl
  contains-add_all j (k ∷ ks) s =
      ground (arith, contains-add_all j ks (add k s), contains-add j k s)

  pub add_all-IsSetList : (ks s : List K) → IsSetList s → IsSetList (add_all ks s)
  unfolding add_all
  add_all-IsSetList [] s h = h
  add_all-IsSetList (k ∷ ks) s h = add_all-IsSetList ks (add k s) (add-IsSetList k s h)

  without : K → List K → List K
  without k [] = []
  without k (x ∷ xs) = ite (dec x k) xs (x ∷ without k xs)

  length-without :
      (k : K) (xs : List K) → contains k xs ≡ true → length xs ≡ length (without k xs) + 1
  unfolding contains without
  length-without k [] h = absurd (ground arith)
  length-without k (x ∷ xs) h = ground (arith, length-without k xs)

  contains-without :
      (j k : K) (xs : List K) → contains j xs ≡ true → (contains j (without k xs) ≡ true) ⊎ (k ≡ j)
  unfolding contains without
  contains-without j k [] h = absurd (ground arith)
  contains-without j k (x ∷ xs) h = ground (arith, contains-without j k xs)

  length-subset :
      (s t : List K)
      → IsSetList s
      → ((k : K) → contains k s ≡ true → contains k t ≡ true)
      → length s ≤ length t
  unfolding contains
  length-subset [] t h sub = omega arith
  length-subset (x ∷ s) t h sub =
      let shorter : length s ≤ length (without x t) = length-subset s (without x t) h.1 others in
      omega (arith, length-without x t (sub x (if_pos (dec x x) refl _ _)))
    where
      others : (k : K) → contains k s ≡ true → contains k (without x t) ≡ true
      others k hk = elim (contains-without k x t (sub k (ground arith))) [
        | inl there ↦ there
        | inr e ↦ absurd (ground (arith, h.0))
      ]

  -- Two sets with the same members have the same size.
  pub length-same_members :
      (s t : List K)
      → IsSetList s
      → IsSetList t
      → ((k : K) → contains k s ≡ contains k t)
      → length s ≡ length t
  length-same_members s t hs ht e =
      le_antisymm (length-subset s t hs (λ k h. sym (e k) ∙ h))
        (length-subset t s ht (λ k h. e k ∙ h))

  -- A set with the members of a list has as many elements as the list has distinct members.
  pub length-distinct :
      (s ks : List K)
      → IsSetList s
      → ((k : K) → contains k s ≡ contains k ks)
      → length s ≡ distinct ks
  unfolding distinct contains
  length-distinct s ks hs e =
      length-same_members s (add_all ks []) hs (add_all-IsSetList ks [] tt)
        (λ k. ground (arith, e k, contains-add_all k ks []))

  -- delete(s, k)
  unfoldable pub remove : K → List K → List K
  remove k [] = []
  remove k (x ∷ xs) = elim (dec x k) [ yes _ ↦ remove k xs | no _ ↦ x ∷ remove k xs ]

  pub contains-remove :
      (j k : K) (s : List K) → contains j (remove k s) ≡ ite (dec k j) false (contains j s)
  unfolding remove contains
  contains-remove j k [] = ground arith
  contains-remove j k (x ∷ xs) = ground (arith, contains-remove j k xs)

  pub remove-absent : (k : K) (s : List K) → contains k s ≡ false → remove k s ≡ s
  unfolding remove contains
  remove-absent k [] h = refl
  remove-absent k (x ∷ xs) h = ground (arith, remove-absent k xs)

  pub remove-add : (k : K) (s : List K) → contains k s ≡ false → remove k (add k s) ≡ s
  unfolding add remove
  remove-add k s h = ground (arith, remove-absent k s h)

  pub remove-IsSetList : (k : K) (s : List K) → IsSetList s → IsSetList (remove k s)
  unfolding remove
  remove-IsSetList k [] h = tt
  remove-IsSetList k (x ∷ xs) h = ground (arith, remove-IsSetList k xs h.1, contains-remove x k xs)
