-- ===== src/Prelude/Maps.antt =====
-- Go maps and keyed SQL tables: association lists over keys with decidable equality. A map in
-- which no key stands twice (`IsMap`) is read by its `lookup` alone, so the order in which Go
-- visits the entries does not show.
use mathlib.Core.Path.{◌≡◌, refl, ap, ◌∙◌}
use mathlib.Core.Logic.{ite}
use mathlib.Core.Bool.{Bool, true, false}
use mathlib.Core.Option.{Option, none, some}
use mathlib.Core.Option
use mathlib.Core.List.{List, [], ◌∷◌, lookup}
use native.Mathlib.Omega.{arith}
use mesh_bug.Prelude.Tests.{if◌then◌else◌}

abbrev pub Map {ℓ} : Type ℓ → Type ℓ → Type ℓ
Map K V = List (K × V)

module _ {ℓ} {K V : Type ℓ} (dec : Discrete K) where
  -- m[k] = v
  unfoldable pub put : K → V → Map K V → Map K V
  put k v [] = (k, v) ∷ []
  put k v ((j, w) ∷ m) = ite (dec k j) ((k, v) ∷ m) ((j, w) ∷ put k v m)

  -- No key twice.
  abbrev pub IsMap : Map K V → Type ℓ
  IsMap [] = Unit
  IsMap ((k, v) ∷ m) = (lookup dec k m ≡ none) × IsMap m

  pub lookup-put :
      (k j : K) (v : V) (m : Map K V)
      → lookup dec j (put k v m) ≡ ite (dec k j) (some v) (lookup dec j m)
  unfolding lookup put
  lookup-put k j v [] = ground arith
  lookup-put k j v ((i, w) ∷ m) = ground (arith, lookup-put k j v m)

  pub put-IsMap : (k : K) (v : V) (m : Map K V) → IsMap m → IsMap (put k v m)
  unfolding lookup put
  put-IsMap k v [] h = (refl, tt)
  put-IsMap k v ((i, w) ∷ m) h = ground (arith, put-IsMap k v m h.1, lookup-put k i v m)

module _ {ℓ} {K V : Type ℓ} where
  -- for _, v := range m { v = f(v) }
  unfoldable pub map_values : (V → V) → Map K V → Map K V
  map_values f [] = []
  map_values f ((k, v) ∷ m) = (k, f v) ∷ map_values f m

  -- for k, v := range m { if drop(k, v) { delete(m, k) } }
  unfoldable pub delete_where : (K → V → Bool) → Map K V → Map K V
  delete_where drop [] = []
  delete_where drop ((k, v) ∷ m) = elim (drop k v) [
    | true ↦ delete_where drop m
    | false ↦ (k, v) ∷ delete_where drop m
  ]

module _ {ℓ} {K V : Type ℓ} (dec : Discrete K) where
  pub lookup-map_values :
      (f : V → V) (j : K) (m : Map K V)
      → lookup dec j (map_values f m) ≡ Option.map f (lookup dec j m)
  unfolding lookup map_values
  lookup-map_values f j [] = refl
  lookup-map_values f j ((k, v) ∷ m) = ground (arith, lookup-map_values f j m)

  pub map_values-IsMap : (f : V → V) (m : Map K V) → IsMap dec m → IsMap dec (map_values f m)
  unfolding map_values
  map_values-IsMap f [] h = tt
  map_values-IsMap f ((k, v) ∷ m) h =
      (lookup-map_values f k m ∙ ap (Option.map f) h.0, map_values-IsMap f m h.1)

  abbrev pub kept : (K → V → Bool) → K → Option V → Option V
  kept drop k none = none
  kept drop k (some v) = if drop k v then none else some v

  pub lookup-delete_where :
      (drop : K → V → Bool) (j : K) (m : Map K V)
      → IsMap dec m
      → lookup dec j (delete_where drop m) ≡ kept drop j (lookup dec j m)
  unfolding lookup delete_where
  lookup-delete_where drop j [] h = refl
  lookup-delete_where drop j ((k, v) ∷ m) h = ground (arith, lookup-delete_where drop j m h.1)

  pub delete_where-IsMap :
      (drop : K → V → Bool) (m : Map K V) → IsMap dec m → IsMap dec (delete_where drop m)
  unfolding delete_where
  delete_where-IsMap drop [] h = tt
  delete_where-IsMap drop ((k, v) ∷ m) h =
      ground (arith, delete_where-IsMap drop m h.1, lookup-delete_where drop k m h.1)

  -- delete(m, j)
  unfoldable pub erase : K → Map K V → Map K V
  erase j [] = []
  erase j ((k, v) ∷ m) = elim (dec k j) [ yes _ ↦ erase j m | no _ ↦ (k, v) ∷ erase j m ]

  pub lookup-erase :
      (j k : K) (m : Map K V) → lookup dec k (erase j m) ≡ ite (dec j k) none (lookup dec k m)
  unfolding lookup erase
  lookup-erase j k [] = ground arith
  lookup-erase j k ((i, v) ∷ m) = ground (arith, lookup-erase j k m)
