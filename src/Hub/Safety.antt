-- ===== src/Hub/Safety.antt =====
-- The hub with the handlers that use it: each calls the function that `Subscribe` returned at most
-- once, as `handleSSE` of internal/web/server.go does by its defer. No order of calls panics.
pub mod Members
pub mod Calls
pub mod Kept
use mathlib.Core.List.{lookup}
use mathlib.Core.Option
use mesh_bug.Prelude.{
  ℕ, ◌<◌, ◌≤◌, ◌≡◌, ◌≢◌, Bool, true, false, if◌then◌else◌, Option, none, some, List, [], ◌∷◌, Bytes,
  bytes_discrete, ℕ_discrete,
}
use mesh_bug.Prelude.Maps.{Map, put, erase}
use mesh_bug.Prelude.Sets.{contains, add, remove, IsSetList}
use mesh_bug.Hub
use mesh_bug.Hub.{Hub, HubEvent, Subs, new_hub}
use mesh_bug.Hub.Delivery.{Live}

-- `held`: the unsubscribe functions that were not called yet, with their topics. `leaving`: the
-- handlers whose call has given up the lock and has not closed the channel yet.
pub record Room (A : Type 0) : Type 0 where
  pub hub : Hub A
  pub held : Map ℕ (List Bytes)
  pub leaving : List ℕ

abbrev pub new_room : {A : Type 0} → Room A
new_room = record { hub = new_hub; held = []; leaving = [] }

pub data Command (A : Type 0) : Type 0 where
  subscribe : ℕ → List Bytes → Command A
  unsubscribe : ℕ → Command A
  close : ℕ → Command A
  publish : HubEvent A → Command A
  receive : ℕ → Command A

module _ {A : Type 0} where
  unfoldable pub step : Command A → Room A → Option (Room A)
  step (Command.subscribe buffer ts) r =
      let (h, id) = Hub.subscribe buffer ts r.hub in
      some (record r { hub = h; held = put ℕ_discrete id ts r.held })
  step (Command.unsubscribe id) r = elim (lookup ℕ_discrete id r.held) [
    | none ↦ some r
    | some ts ↦ some (record {
      hub = Hub.depart id ts r.hub;
      held = erase ℕ_discrete id r.held;
      leaving = add ℕ_discrete id r.leaving;
    })
  ]
  step (Command.close id) r =
      if contains ℕ_discrete id r.leaving
      then Option.map
          (λ cs. record r {
            hub = record r.hub { chans = cs };
            leaving = remove ℕ_discrete id r.leaving;
          })
          (Hub.close id r.hub.chans)
      else some r
  step (Command.publish e) r = Option.map (λ h. record r { hub = h }) (Hub.publish e r.hub)
  step (Command.receive id) r = some (record r { hub = (Hub.receive id r.hub).0 })

  unfoldable pub run : List (Command A) → Room A → Option (Room A)
  unfolding step
  run [] r = some r
  run (c ∷ cs) r = elim (step c r) [ none ↦ none | some r' ↦ run cs r' ]

abbrev pub members_of : Subs → Bytes → List ℕ
members_of s t = Option.get_or (lookup bytes_discrete t s) []

abbrev pub wanted : Option (List Bytes) → Bytes → Bool
wanted none t = false
wanted (some ts) t = contains bytes_discrete t ts

-- The subscribers of a topic are the handlers that asked for it and have not left; their channels
-- are open and hold no more than their buffers; no topic without subscribers is kept. A handler
-- that is leaving subscribes to nothing, and its channel is still open.
pub record Sound {A : Type 0} (r : Room A) : Type 0 where
  pub exact :
      (t : Bytes) (id : ℕ)
      → contains ℕ_discrete id (members_of r.hub.subs t) ≡ wanted (lookup ℕ_discrete id r.held) t
  pub sets : (t : Bytes) → IsSetList ℕ_discrete (members_of r.hub.subs t)
  pub nonempty : (t : Bytes) → lookup bytes_discrete t r.hub.subs ≢ some []
  pub live :
      (id : ℕ) (ts : List Bytes) → lookup ℕ_discrete id r.held ≡ some ts → Live r.hub.chans id
  pub fresh : (id : ℕ) → r.hub.next_id < id → lookup ℕ_discrete id r.held ≡ none
  pub leaving_live : (id : ℕ) → contains ℕ_discrete id r.leaving ≡ true → Live r.hub.chans id
  pub apart :
      (id : ℕ) → contains ℕ_discrete id r.leaving ≡ true → lookup ℕ_discrete id r.held ≡ none
  pub fresh_leaving : (id : ℕ) → r.hub.next_id < id → contains ℕ_discrete id r.leaving ≡ false
