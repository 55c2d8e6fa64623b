-- ===== src/Hub/Topics.antt =====
-- Who subscribes to a topic after `Subscribe` and after `unsubscribe`.
use mathlib.Core.List.{lookup}
use mathlib.Core.Option
use mesh_bug.Prelude.{
  ℕ, ◌≡◌, refl, Option, none, some, List, [], ◌∷◌, Bytes, is_nil, ite, if◌then◌else◌,
  bytes_discrete, ℕ_discrete, foldl, arith, Option-cases, inl, inr,
}
use mesh_bug.Prelude.Maps.{lookup-put, lookup-erase}
use mesh_bug.Prelude.Sets.{contains, add, remove, contains-add}
use mesh_bug.Hub.{Subs, join, leave}

abbrev pub joined : ℕ → Option (List ℕ) → Option (List ℕ)
joined id o = some (add ℕ_discrete id (Option.get_or o []))

-- a topic without subscribers is deleted
abbrev pub without : ℕ → List ℕ → Option (List ℕ)
without id m = if is_nil (remove ℕ_discrete id m) then none else some (remove ℕ_discrete id m)

abbrev pub left : ℕ → Option (List ℕ) → Option (List ℕ)
left id none = none
left id (some m) = without id m

lookup-join :
    (id : ℕ) (s : Subs) (t u : Bytes)
    → lookup bytes_discrete u (join id s t)
      ≡ ite (bytes_discrete t u) (joined id (lookup bytes_discrete u s)) (lookup bytes_discrete u s)
unfolding join
lookup-join id s t u = ground (
  arith,
  lookup-put bytes_discrete t u (add ℕ_discrete id (Option.get_or (lookup bytes_discrete t s) []))
      s,
)

lookup-leave :
    (id : ℕ) (s : Subs) (t u : Bytes)
    → lookup bytes_discrete u (leave id s t)
      ≡ ite (bytes_discrete t u) (left id (lookup bytes_discrete u s)) (lookup bytes_discrete u s)
unfolding leave
lookup-leave id s t u = elim (Option-cases (lookup bytes_discrete t s)) [
  | inl e ↦ ground (arith, e)
  | inr (m, e) ↦ ground (
    arith,
    e,
    lookup-erase bytes_discrete t u s,
    lookup-put bytes_discrete t u (remove ℕ_discrete id m) s,
  )
]

joined_twice : (id : ℕ) (o : Option (List ℕ)) → joined id (joined id o) ≡ joined id o
unfolding add
joined_twice id o = ground (arith, contains-add ℕ_discrete id id (Option.get_or o []))

remove_twice :
    (id : ℕ) (m : List ℕ) → remove ℕ_discrete id (remove ℕ_discrete id m) ≡ remove ℕ_discrete id m
unfolding remove
remove_twice id [] = refl
remove_twice id (x ∷ xs) = ground (arith, remove_twice id xs)

left_twice : (id : ℕ) (o : Option (List ℕ)) → left id (left id o) ≡ left id o
left_twice id none = refl
left_twice id (some m) = ground (arith, remove_twice id m)

pub lookup-subscribed :
    (id : ℕ) (ts : List Bytes) (s : Subs) (u : Bytes)
    → lookup bytes_discrete u (foldl (join id) s ts) ≡ (
        if contains bytes_discrete u ts
        then joined id (lookup bytes_discrete u s)
        else lookup bytes_discrete u s)
unfolding contains
lookup-subscribed id [] s u = refl
lookup-subscribed id (t ∷ ts) s u = ground (
  arith,
  lookup-subscribed id ts (join id s t) u,
  lookup-join id s t u,
  joined_twice id (lookup bytes_discrete u s),
)

pub lookup-unsubscribed :
    (id : ℕ) (ts : List Bytes) (s : Subs) (u : Bytes)
    → lookup bytes_discrete u (foldl (leave id) s ts) ≡ (
        if contains bytes_discrete u ts
        then left id (lookup bytes_discrete u s)
        else lookup bytes_discrete u s)
unfolding contains
lookup-unsubscribed id [] s u = refl
lookup-unsubscribed id (t ∷ ts) s u = ground (
  arith,
  lookup-unsubscribed id ts (leave id s t) u,
  lookup-leave id s t u,
  left_twice id (lookup bytes_discrete u s),
)
