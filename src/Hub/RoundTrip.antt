-- ===== src/Hub/RoundTrip.antt =====
-- What a subscription leaves behind when its handler goes.
use mathlib.Core.List.{lookup}
use mathlib.Core.Option
use mesh_bug.Prelude.{
  ℕ, ◌+◌, ◌≡◌, ◌≢◌, refl, true, false, Option, none, some, List, [], ◌∷◌, Bytes, bytes_discrete,
  ℕ_discrete, arith, foldl,
}
use mesh_bug.Prelude.Maps.{put, lookup-put}
use mesh_bug.Prelude.Sets.{contains, add, remove, remove-add}
use mesh_bug.Hub
use mesh_bug.Hub.{Subs, join, leave, close}
use mesh_bug.Hub.Topics.{joined, left, lookup-subscribed, lookup-unsubscribed}
use mesh_bug.Hub.Safety.{Room, members_of, Sound}

left-joined :
    (id : ℕ) (o : Option (List ℕ))
    → contains ℕ_discrete id (Option.get_or o []) ≡ false
    → o ≢ some []
    → left id (joined id o) ≡ o
unfolding add contains remove
left-joined id none h ne = ground arith
left-joined id (some []) h ne = absurd (ne refl)
left-joined id (some (x ∷ xs)) h ne = ground (arith, remove-add ℕ_discrete id (x ∷ xs) h)

lookup-restored :
    (id : ℕ) (ts : List Bytes) (s : Subs) (t : Bytes)
    → contains ℕ_discrete id (members_of s t) ≡ false
    → lookup bytes_discrete t s ≢ some []
    → lookup bytes_discrete t (foldl (leave id) (foldl (join id) s ts) ts)
      ≡ lookup bytes_discrete t s
lookup-restored id ts s t h ne = ground (
  arith,
  lookup-unsubscribed id ts (foldl (join id) s ts) t,
  lookup-subscribed id ts s t,
  left-joined id (lookup bytes_discrete t s) h ne,
)

module _ {A : Type 0} where
  -- In a sound room, `Subscribe` gives a channel that no other handler holds, calling the function
  -- that it returned does not panic, and afterwards every topic has the subscribers that it had
  -- before, in the same order and with no empty topic added, while the channel is closed.
  pub unsubscribe-subscribe :
      (r : Room A)
      → Sound r
      → (buffer : ℕ) (ts : List Bytes)
      → (lookup ℕ_discrete (Hub.subscribe buffer ts r.hub).1 r.held ≡ none)
        × (h : Hub.Hub A) × (Hub.unsubscribe
              (Hub.subscribe buffer ts r.hub).1
              ts
              (Hub.subscribe buffer ts r.hub).0
            ≡ some h)
        × ((t : Bytes) → lookup bytes_discrete t h.subs ≡ lookup bytes_discrete t r.hub.subs)
        × (c : Hub.Channel A) × (lookup ℕ_discrete (Hub.subscribe buffer ts r.hub).1 h.chans
            ≡ some c)
        × (c.closed ≡ true)
  unfolding Hub.subscribe Hub.unsubscribe Hub.depart close
  unsubscribe-subscribe r s buffer ts =
      let id = r.hub.next_id + 1 in
      let c : Hub.Channel A = record { buffer = buffer; queue = []; closed = false } in
      let c' : Hub.Channel A = record c { closed = true } in
      let gone : lookup ℕ_discrete id r.held ≡ none = s.fresh id (ground arith) in
      let cs = put ℕ_discrete id c r.hub.chans in
      (
        gone,
        record {
          next_id = id;
          subs = foldl (leave id) (foldl (join id) r.hub.subs ts) ts;
          chans = put ℕ_discrete id c' cs;
        },
        ground (arith, lookup-put ℕ_discrete id id c r.hub.chans),
        (λ t.
            lookup-restored id ts r.hub.subs t (ground (arith, s.exact t id, gone)) (s.nonempty t)),
        c',
        ground (arith, lookup-put ℕ_discrete id id c' cs),
        refl,
      )
