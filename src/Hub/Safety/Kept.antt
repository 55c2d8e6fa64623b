-- ===== src/Hub/Safety/Kept.antt =====
-- Every call keeps the room sound and does not panic.
use mathlib.Core.List.{lookup}
use mathlib.Core.Option
use mesh_bug.Prelude.{
  ℕ, ◌≡◌, refl, sym, ap, ◌∙◌, true, Option, none, some, List, [], ◌∷◌, Bytes, if_pos, if_neg,
  if◌then◌else◌, ℕ_discrete, arith, Bool-cases, Option-cases, inl, inr,
}
use mesh_bug.Prelude.Maps.{Map, put, lookup-put}
use mesh_bug.Prelude.Sets.{contains}
use mesh_bug.Hub
use mesh_bug.Hub.{HubEvent, Channel, Subs, join, leave, close, offer}
use mesh_bug.Hub.Delivery.{Live, Sent, send_all-Sent, delivered, offer_open, offer_within}
use mesh_bug.Hub.Safety.{Room, new_room, Command, step, run, members_of, wanted, Sound}
use mesh_bug.Hub.Safety.Calls.{subscribe-Sound, unsubscribe-Sound, close-Sound}

module _ {A : Type 0} (r : Room A) (s : Sound r) where
  wanted-held :
      (o : Option (List Bytes)) (t : Bytes) → wanted o t ≡ true → (ts : List Bytes) × (o ≡ some ts)
  wanted-held none t e = cc
  wanted-held (some ts) t e = (ts, refl)

  sent : (e : HubEvent A) → Sent e (members_of r.hub.subs e.topic) r.hub.chans
  sent e = send_all-Sent e (members_of r.hub.subs e.topic) r.hub.chans (s.sets e.topic) (λ j h.
      let (ts, q) =
        wanted-held (lookup ℕ_discrete j r.held) e.topic (sym (s.exact e.topic j) ∙ h) in
      s.live j ts q)

  Live-delivered :
      (e : HubEvent A) (ids : List ℕ) (cs' : Map ℕ (Channel A)) (j : ℕ)
      → lookup ℕ_discrete j cs' ≡ delivered e ids j (lookup ℕ_discrete j r.hub.chans)
      → Live r.hub.chans j
      → Live cs' j
  Live-delivered e ids cs' j same l = elim (Bool-cases (contains ℕ_discrete j ids)) [
    | inl h ↦ record {
      channel = offer e l.channel;
      found = ground (arith, same, h, l.found);
      is_open = offer_open e l.channel ∙ l.is_open;
      within = offer_within e l.channel l.within;
    }
    | inr h ↦ record {
      channel = l.channel;
      found = ground (arith, same, h, l.found);
      is_open = l.is_open;
      within = l.within;
    }
  ]

  publish-Sound :
      (e : HubEvent A) → (r' : Room A) × (step (Command.publish e) r ≡ some r') × Sound r'
  unfolding step Hub.publish
  publish-Sound e =
      let w = sent e in
      (
        record r { hub = record r.hub { chans = w.chans } },
        ground (arith, w.ran),
        record {
          exact = s.exact;
          sets = s.sets;
          nonempty = s.nonempty;
          live = λ j ts q.
              Live-delivered e (members_of r.hub.subs e.topic) w.chans j (w.each j) (s.live j ts q);
          fresh = s.fresh;
          leaving_live = λ j h.
              Live-delivered e (members_of r.hub.subs e.topic) w.chans j (w.each j)
                (s.leaving_live j h);
          apart = s.apart;
          fresh_leaving = s.fresh_leaving;
        },
      )

  -- What `Publish` does in a sound room: it does not panic, changes no subscription, and offers the
  -- event to the channel of exactly the handlers that asked for its topic and have not left.
  pub publish-delivers :
      (e : HubEvent A)
      → (h : Hub.Hub A) × (Hub.publish e r.hub ≡ some h)
        × (h.subs ≡ r.hub.subs)
        × ((j : ℕ)
            → lookup ℕ_discrete j h.chans ≡ (
                if wanted (lookup ℕ_discrete j r.held) e.topic
                then Option.map (offer e) (lookup ℕ_discrete j r.hub.chans)
                else lookup ℕ_discrete j r.hub.chans))
  unfolding Hub.publish
  publish-delivers e =
      let w = sent e in
      (
        record r.hub { chans = w.chans },
        ground (arith, w.ran),
        refl,
        λ j.
            w.each j
            ∙ ap
                (λ b.
                  if b
                  then Option.map (offer e) (lookup ℕ_discrete j r.hub.chans)
                  else lookup ℕ_discrete j r.hub.chans)
                (s.exact e.topic j),
      )

  receive-Sound : (id : ℕ) → (r' : Room A) × (step (Command.receive id) r ≡ some r') × Sound r'
  unfolding step Hub.receive
  receive-Sound id = elim (Option-cases (lookup ℕ_discrete id r.hub.chans)) [
    | inl e ↦ (r, ground (arith, e), s)
    | inr (c, e) ↦ by_queue c e c.queue refl
  ]
    where
      by_queue :
          (c : Channel A)
          → lookup ℕ_discrete id r.hub.chans ≡ some c
          → (q : List (HubEvent A)) → c.queue ≡ q
          → (r' : Room A) × (step (Command.receive id) r ≡ some r') × Sound r'
      by_queue c e [] f = (r, ground (arith, e, f), s)
      by_queue c e (x ∷ q) f = (
        record r {
          hub = record r.hub { chans = put ℕ_discrete id (record c { queue = q }) r.hub.chans };
        },
        ground (arith, e, f),
        record {
          exact = s.exact;
          sets = s.sets;
          nonempty = s.nonempty;
          live = λ j ts p. shorter c e x q f j (s.live j ts p);
          fresh = s.fresh;
          leaving_live = λ j h. shorter c e x q f j (s.leaving_live j h);
          apart = s.apart;
          fresh_leaving = s.fresh_leaving;
        },
      )
        where
          shorter :
              (c : Channel A)
              → lookup ℕ_discrete id r.hub.chans ≡ some c
              → (x : HubEvent A) (q : List (HubEvent A)) → c.queue ≡ x ∷ q
              → (j : ℕ) → Live r.hub.chans j
              → Live (put ℕ_discrete id (record c { queue = q }) r.hub.chans) j
          shorter c e x q f j l = elim (ℕ_discrete id j) [
            | yes p ↦ record {
              channel = record c { queue = q };
              found =
                  lookup-put ℕ_discrete id j (record c { queue = q }) r.hub.chans
                  ∙ if_pos (ℕ_discrete id j) p _ _;
              is_open = ground (arith, l.found, e, p, l.is_open);
              within = ground (arith, l.found, e, p, l.within, f);
            }
            | no p ↦ record {
              channel = l.channel;
              found =
                  lookup-put ℕ_discrete id j (record c { queue = q }) r.hub.chans
                  ∙ if_neg (ℕ_discrete id j) p _ _
                  ∙ l.found;
              is_open = l.is_open;
              within = l.within;
            }
          ]

module _ {A : Type 0} where
  new-Sound : Sound (new_room {A = A})
  unfolding lookup contains
  new-Sound = record {
    exact = λ t id. refl;
    sets = λ t. tt;
    nonempty = λ t e. cc;
    live = λ id ts e. cc;
    fresh = λ id l. refl;
    leaving_live = λ id h. absurd (ground (arith, h));
    apart = λ id h. refl;
    fresh_leaving = λ id l. refl;
  }

  step-Sound :
      (c : Command A) (r : Room A) → Sound r → (r' : Room A) × (step c r ≡ some r') × Sound r'
  step-Sound (Command.subscribe buffer ts) r s = subscribe-Sound r s buffer ts
  step-Sound (Command.unsubscribe id) r s = unsubscribe-Sound r s id
  step-Sound (Command.close id) r s = close-Sound r s id
  step-Sound (Command.publish e) r s = publish-Sound r s e
  step-Sound (Command.receive id) r s = receive-Sound r s id

  run-Sound :
      (cs : List (Command A)) (r : Room A)
      → Sound r
      → (r' : Room A) × (run cs r ≡ some r') × Sound r'
  unfolding run
  run-Sound [] r s = (r, refl, s)
  run-Sound (c ∷ cs) r s =
      let (r₁, e, s₁) = step-Sound c r s in
      let (r₂, f, s₂) = run-Sound cs r₁ s₁ in (r₂, ground (arith, e, f), s₂)

  -- From a new hub, no sequence of subscriptions, leavings (each at most once, the close of the
  -- channel any time later), publications and receives panics, and after each the room is sound: subscribers are exactly those that asked and
  -- have not left, open channels hold no more than their buffers, and no empty topic is kept.
  pub run_new-Sound : (cs : List (Command A)) → (r : Room A) × (run cs new_room ≡ some r) × Sound r
  run_new-Sound cs = run-Sound cs new_room new-Sound
