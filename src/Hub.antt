-- ===== src/Hub.antt =====
-- The hub that fans events out to the SSE handlers: internal/sse/hub.go. A channel is named by its
-- subscription's identifier, so the topics share it; `chans` holds its buffer. A send on a closed
-- channel and a second close panic, which is `none`. What holds the hub's lock is one step; the
-- close of a channel behind it and the handlers' receives are steps of their own.
pub mod Topics
pub mod Delivery
pub mod Safety
pub mod RoundTrip
use mathlib.Core.List.{lookup}
use mathlib.Core.Option
use mesh_bug.Prelude.{
  ℕ, ◌+◌, ◌≡◌, refl, Bool, true, false, Option, none, some, List, [], ◌∷◌, ◌++◌, Bytes, is_nil,
  length, ltb, if◌then◌else◌, bytes_discrete, ℕ_discrete, foldl,
}
use mesh_bug.Prelude.Maps.{Map, put, erase}
use mesh_bug.Prelude.Sets.{add, remove}

-- sse.Event
pub record HubEvent (A : Type 0) : Type 0 where
  pub topic : Bytes
  pub payload : A

pub record Channel (A : Type 0) : Type 0 where
  pub buffer : ℕ
  pub queue : List (HubEvent A)
  pub closed : Bool

-- Hub.subs: the identifiers that subscribe to a topic
abbrev pub Subs : Type 0
Subs = Map Bytes (List ℕ)

pub record Hub (A : Type 0) : Type 0 where
  pub next_id : ℕ
  pub subs : Subs
  pub chans : Map ℕ (Channel A)

abbrev pub new_hub : {A : Type 0} → Hub A
new_hub = record { next_id = 0; subs = []; chans = [] }

-- the loop of `Subscribe` for one topic
unfoldable pub join : ℕ → Subs → Bytes → Subs
join id subs t =
    put bytes_discrete t (add ℕ_discrete id (Option.get_or (lookup bytes_discrete t subs) [])) subs

-- the loop of `unsubscribe` for one topic
unfoldable pub leave : ℕ → Subs → Bytes → Subs
leave id subs t = elim (lookup bytes_discrete t subs) [
  | none ↦ subs
  | some m ↦
      let rest = remove ℕ_discrete id m in
      if is_nil rest then erase bytes_discrete t subs else put bytes_discrete t rest subs
]

module _ {A : Type 0} where
  -- The new hub and the subscription's identifier.
  unfoldable pub subscribe : ℕ → List Bytes → Hub A → Hub A × ℕ
  unfolding join
  subscribe buffer topics h =
      let id = h.next_id + 1 in
      (
        record {
          next_id = id;
          subs = foldl (join id) h.subs topics;
          chans =
              put ℕ_discrete id (record { buffer = buffer; queue = []; closed = false }) h.chans;
        },
        id,
      )

  -- close(ch)
  unfoldable pub close : ℕ → Map ℕ (Channel A) → Option (Map ℕ (Channel A))
  close id cs = elim (lookup ℕ_discrete id cs) [
    | none ↦ none
    | some c ↦ if c.closed then none else some (put ℕ_discrete id (record c { closed = true }) cs)
  ]

  -- The part of `unsubscribe` that holds the lock.
  unfoldable pub depart : ℕ → List Bytes → Hub A → Hub A
  unfolding leave
  depart id topics h = record h { subs = foldl (leave id) h.subs topics }

  unfoldable pub unsubscribe : ℕ → List Bytes → Hub A → Option (Hub A)
  unfolding depart close
  unsubscribe id topics h =
      let h' = depart id topics h in Option.map (λ cs. record h' { chans = cs }) (close id h'.chans)

  -- select { case ch <- e: default: }, for a channel with a buffer, as the handlers' are
  unfoldable pub offer : HubEvent A → Channel A → Channel A
  offer e c = if ltb (length c.queue) c.buffer then record c { queue = c.queue ++ e ∷ [] } else c

  unfoldable pub send : HubEvent A → ℕ → Map ℕ (Channel A) → Option (Map ℕ (Channel A))
  unfolding offer
  send e id cs = elim (lookup ℕ_discrete id cs) [
    | none ↦ none
    | some c ↦ if c.closed then none else some (put ℕ_discrete id (offer e c) cs)
  ]

  unfoldable pub send_all : HubEvent A → List ℕ → Map ℕ (Channel A) → Option (Map ℕ (Channel A))
  unfolding send
  send_all e [] cs = some cs
  send_all e (id ∷ ids) cs = elim (send e id cs) [ none ↦ none | some cs' ↦ send_all e ids cs' ]

  unfoldable pub publish : HubEvent A → Hub A → Option (Hub A)
  unfolding send_all
  publish e h =
      Option.map (λ cs. record h { chans = cs })
        (send_all e (Option.get_or (lookup bytes_discrete e.topic h.subs) []) h.chans)

  -- A handler takes the oldest event of its channel, if there is one.
  unfoldable pub receive : ℕ → Hub A → Hub A × Option (HubEvent A)
  receive id h = elim (lookup ℕ_discrete id h.chans) [
    | none ↦ (h, none)
    | some c ↦ elim c.queue [
      | [] ↦ (h, none)
      | e ∷ q ↦ (record h { chans = put ℕ_discrete id (record c { queue = q }) h.chans }, some e)
    ]
  ]
