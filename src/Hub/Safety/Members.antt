-- ===== src/Hub/Safety/Members.antt =====
-- Who subscribes to a topic after the loops of `Subscribe` and `unsubscribe`, as lists, and the
-- channels that a write leaves alone.
use mathlib.Core.List.{lookup}
use mathlib.Core.Option
use mesh_bug.Prelude.{
  ℕ, ◌≡◌, ◌≢◌, refl, ◌∙◌, Option, none, some, List, [], ◌∷◌, Bytes, is_nil, if_neg, if◌then◌else◌,
  bytes_discrete, ℕ_discrete, arith, foldl,
}
use mesh_bug.Prelude.Maps.{Map, put, lookup-put}
use mesh_bug.Prelude.Sets.{contains, add, remove}
use mesh_bug.Hub.{Channel, Subs, join, leave}
use mesh_bug.Hub.Topics.{left, lookup-subscribed, lookup-unsubscribed}
use mesh_bug.Hub.Delivery.{Live}
use mesh_bug.Hub.Safety.{members_of}

pub members-left :
    (id : ℕ) (o : Option (List ℕ))
    → Option.get_or (left id o) [] ≡ remove ℕ_discrete id (Option.get_or o [])
unfolding remove
members-left id none = refl
members-left id (some m) = empty (remove ℕ_discrete id m)
  where
    empty : (rest : List ℕ) → Option.get_or (if is_nil rest then none else some rest) [] ≡ rest
    empty [] = refl
    empty (x ∷ xs) = refl

pub left-nonempty : (id : ℕ) (o : Option (List ℕ)) → left id o ≢ some []
left-nonempty id none e = cc
left-nonempty id (some m) e = empty (remove ℕ_discrete id m) e
  where
    empty : (rest : List ℕ) → (if is_nil rest then none else some rest) ≢ some []
    empty [] e = cc
    empty (x ∷ xs) e = cc

pub add-nonempty : (id : ℕ) (m : List ℕ) → add ℕ_discrete id m ≢ []
unfolding add contains
add-nonempty id [] e = ground (arith, e)
add-nonempty id (x ∷ xs) e = ground (arith, e)

-- the members of a topic after the loops of `Subscribe` and `unsubscribe`
pub subscribed_members :
    (id : ℕ) (ts : List Bytes) (s : Subs) (t : Bytes)
    → members_of (foldl (join id) s ts) t ≡ (
        if contains bytes_discrete t ts then add ℕ_discrete id (members_of s t) else members_of s t)
subscribed_members id ts s t = ground (arith, lookup-subscribed id ts s t)

pub unsubscribed_members :
    (id : ℕ) (ts : List Bytes) (s : Subs) (t : Bytes)
    → members_of (foldl (leave id) s ts) t ≡ (
        if contains bytes_discrete t ts
        then remove ℕ_discrete id (members_of s t)
        else members_of s t)
unsubscribed_members id ts s t =
    ground (arith, lookup-unsubscribed id ts s t, members-left id (lookup bytes_discrete t s))

-- A write to another channel.
pub Live-put :
    {A : Type 0} (id : ℕ) (c : Channel A) (cs : Map ℕ (Channel A)) (j : ℕ)
    → id ≢ j
    → Live cs j
    → Live (put ℕ_discrete id c cs) j
Live-put id c cs j p l = record {
  channel = l.channel;
  found = lookup-put ℕ_discrete id j c cs ∙ if_neg (ℕ_discrete id j) p _ _ ∙ l.found;
  is_open = l.is_open;
  within = l.within;
}
