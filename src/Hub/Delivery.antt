-- ===== src/Hub/Delivery.antt =====
-- What `Publish` does to every channel.
use mathlib.Core.List.{lookup}
use mathlib.Core.Option
use mesh_bug.Prelude.{
  ℕ, ◌+◌, ◌≤◌, ◌≡◌, refl, ◌∙◌, true, false, Option, some, List, [], ◌∷◌, ◌++◌, if_pos, if_neg,
  if◌then◌else◌, ℕ_discrete, arith, length,
}
use mesh_bug.Prelude.Maps.{Map, put, lookup-put}
use mesh_bug.Prelude.Sets.{contains, IsSetList}
use mesh_bug.Hub.{HubEvent, Channel, offer, send, send_all}

module _ {A : Type 0} where
  length-snoc : (q : List (HubEvent A)) (e : HubEvent A) → length (q ++ e ∷ []) ≡ length q + 1
  length-snoc [] e = ground arith
  length-snoc (x ∷ q) e = ground (arith, length-snoc q e)

  -- An open channel that holds no more than its buffer.
  pub record Live (cs : Map ℕ (Channel A)) (id : ℕ) : Type 0 where
    pub channel : Channel A
    pub found : lookup ℕ_discrete id cs ≡ some channel
    pub is_open : channel.closed ≡ false
    pub within : length channel.queue ≤ channel.buffer

  abbrev pub delivered : HubEvent A → List ℕ → ℕ → Option (Channel A) → Option (Channel A)
  delivered e ids id o = if contains ℕ_discrete id ids then Option.map (offer e) o else o

  pub offer_within :
      (e : HubEvent A) (c : Channel A)
      → length c.queue ≤ c.buffer
      → length (offer e c).queue ≤ (offer e c).buffer
  unfolding offer
  offer_within e c w = ground (arith, length-snoc c.queue e)

  pub offer_open : (e : HubEvent A) (c : Channel A) → (offer e c).closed ≡ c.closed
  unfolding offer
  offer_open e c = ground arith

  pub Live-put :
      (cs : Map ℕ (Channel A)) (id j : ℕ) (c : Channel A)
      → c.closed ≡ false
      → length c.queue ≤ c.buffer
      → Live cs j
      → Live (put ℕ_discrete id c cs) j
  Live-put cs id j c o w l = elim (ℕ_discrete id j) [
    | yes p ↦ record {
      channel = c;
      found = lookup-put ℕ_discrete id j c cs ∙ if_pos (ℕ_discrete id j) p _ _;
      is_open = o;
      within = w;
    }
    | no p ↦ record {
      channel = l.channel;
      found = lookup-put ℕ_discrete id j c cs ∙ if_neg (ℕ_discrete id j) p _ _ ∙ l.found;
      is_open = l.is_open;
      within = l.within;
    }
  ]

  pub record Sent (e : HubEvent A) (ids : List ℕ) (cs : Map ℕ (Channel A)) : Type 0 where
    pub chans : Map ℕ (Channel A)
    pub ran : send_all e ids cs ≡ some chans
    pub each : (j : ℕ) → lookup ℕ_discrete j chans ≡ delivered e ids j (lookup ℕ_discrete j cs)

  pub send_all-Sent :
      (e : HubEvent A) (ids : List ℕ) (cs : Map ℕ (Channel A))
      → IsSetList ℕ_discrete ids
      → ((j : ℕ) → contains ℕ_discrete j ids ≡ true → Live cs j)
      → Sent e ids cs
  unfolding send_all contains send
  send_all-Sent e [] cs u live = record { chans = cs; ran = refl; each = λ j. refl }
  send_all-Sent e (id ∷ ids) cs u live =
      let l = live id (if_pos (ℕ_discrete id id) refl true (contains ℕ_discrete id ids)) in
      let c = offer e l.channel in
      let cs' = put ℕ_discrete id c cs in
      let rest = send_all-Sent e ids cs' u.1 (λ j h.
        Live-put cs id j c (offer_open e l.channel ∙ l.is_open) (offer_within e l.channel l.within)
          (live j (ground (arith, h)))) in
      record {
        chans = rest.chans;
        ran = ground (arith, l.found, l.is_open, rest.ran);
        each = λ j. rest.each j ∙ ground (arith, lookup-put ℕ_discrete id j c cs, l.found, u.0);
      }
