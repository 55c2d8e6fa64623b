-- ===== src/Hub/Safety/Calls.antt =====
-- `Subscribe`, the part of `unsubscribe` under the lock, and the close behind it keep a room sound.
use mathlib.Core.List.{lookup}
use mesh_bug.Prelude.{
  ℕ, ◌+◌, ◌≡◌, ◌≢◌, refl, sym, ◌∙◌, true, false, none, some, List, [], Bytes, if_pos, if_neg,
  bytes_discrete, ℕ_discrete, arith, subst, Bool-cases, Option-cases, inl, inr,
}
use mesh_bug.Prelude.Maps.{put, erase, lookup-put, lookup-erase}
use mesh_bug.Prelude.Sets.{
  contains, add, remove, contains-add, contains-remove, add-IsSetList, remove-IsSetList,
}
use mesh_bug.Hub
use mesh_bug.Hub.{HubEvent, Channel, Subs, join, leave, close, offer}
use mesh_bug.Hub.Topics.{lookup-subscribed, lookup-unsubscribed}
use mesh_bug.Hub.Delivery.{Live}
use mesh_bug.Hub.Safety.{Room, Command, step, members_of, Sound}
use mesh_bug.Hub.Safety.Members.{
  left-nonempty, add-nonempty, subscribed_members, unsubscribed_members, Live-put,
}

module _ {A : Type 0} (r : Room A) (s : Sound r) where
  pub subscribe-Sound :
      (buffer : ℕ) (ts : List Bytes)
      → (r' : Room A) × (step (Command.subscribe buffer ts) r ≡ some r') × Sound r'
  unfolding step Hub.subscribe
  subscribe-Sound buffer ts =
      let id = r.hub.next_id + 1 in
      let h = (Hub.subscribe buffer ts r.hub).0 in
      let gone : lookup ℕ_discrete id r.held ≡ none = s.fresh id (ground arith) in
      (
        _,
        refl,
        record {
          exact = λ t j. ground (
            arith,
            subscribed_members id ts r.hub.subs t,
            contains-add ℕ_discrete j id (members_of r.hub.subs t),
            s.exact t j,
            lookup-put ℕ_discrete id j ts r.held,
            gone,
          );
          sets = λ t. ground (
            arith,
            subscribed_members id ts r.hub.subs t,
            add-IsSetList ℕ_discrete id (members_of r.hub.subs t) (s.sets t),
            s.sets t,
          );
          nonempty = λ t. ground (
            arith,
            lookup-subscribed id ts r.hub.subs t,
            s.nonempty t,
            add-nonempty id (members_of r.hub.subs t),
          );
          live = λ j us e. new_live j us e;
          fresh =
              λ j l. ground (arith, lookup-put ℕ_discrete id j ts r.held, s.fresh j (ground arith));
          leaving_live = λ j h. Live-put id c r.hub.chans j (old j h) (s.leaving_live j h);
          apart = λ j h.
              lookup-put ℕ_discrete id j ts r.held
              ∙ if_neg (ℕ_discrete id j) (old j h) _ _
              ∙ s.apart j h;
          fresh_leaving = λ j l. s.fresh_leaving j (ground arith);
        },
      )
    where
      c : Channel A
      c = record { buffer = buffer; queue = []; closed = false }

      id' : ℕ
      id' = r.hub.next_id + 1

      -- A handler that is leaving came before.
      old : (j : ℕ) → contains ℕ_discrete j r.leaving ≡ true → id' ≢ j
      old j h e = ground (arith, s.fresh_leaving j (omega (arith, e)), h)

      new_live :
          (j : ℕ) (us : List Bytes)
          → lookup ℕ_discrete j (put ℕ_discrete id' ts r.held) ≡ some us
          → Live (put ℕ_discrete id' c r.hub.chans) j
      new_live j us e = elim (ℕ_discrete id' j) [
        | yes p ↦ record {
          channel = c;
          found = lookup-put ℕ_discrete id' j c r.hub.chans ∙ if_pos (ℕ_discrete id' j) p _ _;
          is_open = refl;
          within = ground arith;
        }
        | no p ↦ Live-put id' c r.hub.chans j p (
            s.live j us
              (sym (lookup-put ℕ_discrete id' j ts r.held ∙ if_neg (ℕ_discrete id' j) p _ _) ∙ e))
      ]

  unsubscribe-held :
      (id : ℕ) (ts : List Bytes)
      → lookup ℕ_discrete id r.held ≡ some ts
      → (r' : Room A) × (step (Command.unsubscribe id) r ≡ some r') × Sound r'
  unfolding step Hub.depart
  unsubscribe-held id ts e = (
    record {
      hub = Hub.depart id ts r.hub;
      held = erase ℕ_discrete id r.held;
      leaving = add ℕ_discrete id r.leaving;
    },
    ground (arith, e),
    record {
      exact = λ t j. ground (
        arith,
        unsubscribed_members id ts r.hub.subs t,
        contains-remove ℕ_discrete j id (members_of r.hub.subs t),
        s.exact t j,
        lookup-erase ℕ_discrete id j r.held,
        e,
      );
      sets = λ t. ground (
        arith,
        unsubscribed_members id ts r.hub.subs t,
        remove-IsSetList ℕ_discrete id (members_of r.hub.subs t) (s.sets t),
        s.sets t,
      );
      nonempty = λ t. ground (
        arith,
        lookup-unsubscribed id ts r.hub.subs t,
        s.nonempty t,
        left-nonempty id (lookup bytes_discrete t r.hub.subs),
      );
      live = λ j us e'. elim (ℕ_discrete id j) [
        | yes p ↦ absurd (ground (arith, lookup-erase ℕ_discrete id j r.held, e', p))
        | no p ↦
            s.live j us
              (sym (lookup-erase ℕ_discrete id j r.held ∙ if_neg (ℕ_discrete id j) p _ _) ∙ e')
      ];
      fresh = λ j n. ground (arith, lookup-erase ℕ_discrete id j r.held, s.fresh j n);
      leaving_live = λ j h. elim (ℕ_discrete id j) [
        | yes p ↦ subst (Live r.hub.chans) p (s.live id ts e)
        | no p ↦
            s.leaving_live j
              (sym (contains-add ℕ_discrete j id r.leaving ∙ if_neg (ℕ_discrete id j) p _ _) ∙ h)
      ];
      apart = λ j h. ground (
        arith,
        lookup-erase ℕ_discrete id j r.held,
        contains-add ℕ_discrete j id r.leaving,
        s.apart j,
        h,
      );
      fresh_leaving = λ j n.
          ground
            (arith, contains-add ℕ_discrete j id r.leaving, s.fresh_leaving j n, s.fresh j n, e);
    },
  )

  pub unsubscribe-Sound :
      (id : ℕ) → (r' : Room A) × (step (Command.unsubscribe id) r ≡ some r') × Sound r'
  unsubscribe-Sound id = elim (Option-cases (lookup ℕ_discrete id r.held)) [
    | inl e ↦ (r, unfold step in ground (arith, e), s)
    | inr (ts, e) ↦ unsubscribe-held id ts e
  ]

  close-leaving :
      (id : ℕ)
      → contains ℕ_discrete id r.leaving ≡ true
      → (r' : Room A) × (step (Command.close id) r ≡ some r') × Sound r'
  unfolding step close
  close-leaving id h =
      let l = s.leaving_live id h in
      let c : Channel A = record l.channel { closed = true } in
      (
        record r {
          hub = record r.hub { chans = put ℕ_discrete id c r.hub.chans };
          leaving = remove ℕ_discrete id r.leaving;
        },
        ground (arith, h, l.found, l.is_open),
        record {
          exact = s.exact;
          sets = s.sets;
          nonempty = s.nonempty;
          live = λ j us e.
              Live-put id c r.hub.chans j (λ p. ground (arith, p, s.apart id h, e)) (s.live j us e);
          fresh = s.fresh;
          leaving_live = λ j k.
              Live-put id c r.hub.chans j
                (λ p. ground (arith, p, contains-remove ℕ_discrete j id r.leaving, k))
                (s.leaving_live j (ground (arith, contains-remove ℕ_discrete j id r.leaving, k)));
          apart = λ j k. s.apart j (ground (arith, contains-remove ℕ_discrete j id r.leaving, k));
          fresh_leaving =
              λ j n. ground (arith, contains-remove ℕ_discrete j id r.leaving, s.fresh_leaving j n);
        },
      )

  pub close-Sound : (id : ℕ) → (r' : Room A) × (step (Command.close id) r ≡ some r') × Sound r'
  close-Sound id = elim (Bool-cases (contains ℕ_discrete id r.leaving)) [
    | inl h ↦ close-leaving id h
    | inr h ↦ (r, unfold step in ground (arith, h), s)
  ]
