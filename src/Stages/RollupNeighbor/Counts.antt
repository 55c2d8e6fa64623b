-- ===== src/Stages/RollupNeighbor/Counts.antt =====
-- The `packets` column: the number of packets of a key, however they are cut into batches.
use mathlib.Core.List.{lookup}
use mathlib.Core.Option
use mesh_bug.Prelude.{
  ℕ, ◌+◌, ◌≡◌, ◌≢◌, refl, ap, ◌∙◌, subst, true, false, Option, none, some, List, [], ◌∷◌,
  slice_bytes, if◌then◌else◌, is_nil, ite, if_pos, if_neg, arith, inl, inr, Bool-cases,
}
use mesh_bug.Prelude.Maps.{IsMap, lookup-put, put-IsMap}
use mesh_bug.Event.{Event, Payload, PacketPayload, packet, status, FloatOps, truncate, minute}
use mesh_bug.Store.{NeighborRow}
use mesh_bug.Stages.RollupNeighbor.{
  NeighborKey, NeighborAccum, State, key_discrete, apply, apply_payload, apply_packet, count_packet,
  fresh,
}

module _ {F : Type 0} (fl : FloatOps F) where
  abbrev pub stored : Option (NeighborRow F) → ℕ
  stored none = 0
  stored (some r) = r.packets

  -- An entry and its row account for `n` packets.
  pub record Tally (acc : NeighborAccum F) (row : Option (NeighborRow F)) (n : ℕ) : Type 0 where
    pub total : (if acc.loaded then acc.packets else acc.packets + stored row) ≡ n
    pub clean_loaded : acc.dirty ≡ false → acc.loaded ≡ true
    pub clean_stored : acc.dirty ≡ false → stored row ≡ n

  unfoldable pub Accounts : Option (NeighborAccum F) → Option (NeighborRow F) → ℕ → Type 0
  Accounts none row n = stored row ≡ n
  Accounts (some acc) row n = Tally acc row n

  abbrev key_of : Event F → PacketPayload F → NeighborKey
  key_of e p = (e.observer_id, slice_bytes p.source_prefix, truncate e.ts minute)

  -- 1 for a packet with the observer, the source prefix and the minute of the key, else 0.
  unfoldable pub one_of : NeighborKey → Event F → Payload F → ℕ
  one_of k e (status _) = 0
  one_of k e (packet p) =
      if is_nil (slice_bytes p.source_prefix)
      then 0
      else ite (key_discrete (e.observer_id, slice_bytes p.source_prefix, truncate e.ts minute) k) 1
          0

  -- The number of packets of a key among events.
  unfoldable pub packets_of : NeighborKey → List (Event F) → ℕ
  unfolding one_of
  packets_of k [] = 0
  packets_of k (e ∷ es) = one_of k e e.payload + packets_of k es

  count-Tally :
      (p : PacketPayload F) (o : Option (NeighborAccum F)) (row : Option (NeighborRow F)) (n : ℕ)
      → Accounts o row n
      → Tally (count_packet fl p (Option.get_or o (fresh fl))) row (n + 1)
  unfolding count_packet Accounts
  count-Tally p none row n a = record {
    total = ground (arith, a);
    clean_loaded = λ c. cc;
    clean_stored = λ c. cc;
  }
  count-Tally p (some acc) row n a = record {
    total = ground (arith, a.total);
    clean_loaded = λ c. cc;
    clean_stored = λ c. cc;
  }

  module _ (k : NeighborKey) (e : Event F) (p : PacketPayload F) (s : State F) where
    skipped :
        is_nil (slice_bytes p.source_prefix) ≡ true
        → (apply_packet fl e p s ≡ s) × (one_of k e (packet p) ≡ 0)
    unfolding apply_packet one_of
    skipped z = (rw z refl, rw z refl)

    counted :
        is_nil (slice_bytes p.source_prefix) ≡ false
        → key_of e p ≡ k
        → (lookup key_discrete k (apply_packet fl e p s)
            ≡ some (count_packet fl p (Option.get_or (lookup key_discrete k s) (fresh fl))))
          × (one_of k e (packet p) ≡ 1)
    unfolding apply_packet one_of key_of
    counted z q = (
      rw z (
          lookup-put key_discrete (key_of e p) k _ s
          ∙ if_pos (key_discrete (key_of e p) k) q _ _
          ∙ ap (λ j. some (count_packet fl p (Option.get_or (lookup key_discrete j s) (fresh fl))))
              q),
      rw z (if_pos (key_discrete (key_of e p) k) q 1 0),
    )

    other :
        is_nil (slice_bytes p.source_prefix) ≡ false
        → key_of e p ≢ k
        → (lookup key_discrete k (apply_packet fl e p s) ≡ lookup key_discrete k s)
          × (one_of k e (packet p) ≡ 0)
    unfolding apply_packet one_of key_of
    other z q = (
      rw z
          (lookup-put key_discrete (key_of e p) k _ s ∙ if_neg (key_discrete (key_of e p) k) q _ _),
      rw z (if_neg (key_discrete (key_of e p) k) q 1 0),
    )

  pub plus_zero : (n : ℕ) → n ≡ n + 0
  plus_zero n = ground arith

  apply_packet-Accounts :
      (k : NeighborKey) (e : Event F) (p : PacketPayload F) (s : State F)
      (row : Option (NeighborRow F)) (n : ℕ)
      → Accounts (lookup key_discrete k s) row n
      → Accounts (lookup key_discrete k (apply_packet fl e p s)) row (n + one_of k e (packet p))
  unfolding Accounts
  apply_packet-Accounts k e p s row n a = elim (Bool-cases (is_nil (slice_bytes p.source_prefix))) [
    | inl z ↦
        let (same, zeroth) = skipped k e p s z in
        rw (same, zeroth) (subst (Accounts (lookup key_discrete k s) row) (plus_zero n) a)
    | inr z ↦ elim (key_discrete (key_of e p) k) [
      | yes q ↦
          let (entry, one) = counted k e p s z q in
          rw (entry, one) (count-Tally p (lookup key_discrete k s) row n a)
      | no q ↦
          let (same, zeroth) = other k e p s z q in
          rw (same, zeroth) (subst (Accounts (lookup key_discrete k s) row) (plus_zero n) a)
    ]
  ]

  apply_packet-IsMap :
      (e : Event F) (p : PacketPayload F) (s : State F)
      → IsMap key_discrete s
      → IsMap key_discrete (apply_packet fl e p s)
  unfolding apply_packet
  apply_packet-IsMap e p s m = elim (Bool-cases (is_nil (slice_bytes p.source_prefix))) [
    | inl z ↦ rw z m
    | inr z ↦ rw z (put-IsMap key_discrete (key_of e p) _ s m)
  ]

  apply-Accounts :
      (k : NeighborKey) (e : Event F) (p : Payload F) (s : State F) (row : Option (NeighborRow F))
      (n : ℕ)
      → Accounts (lookup key_discrete k s) row n
      → Accounts (lookup key_discrete k (apply_payload fl e p s)) row (n + one_of k e p)
  unfolding apply_payload one_of
  apply-Accounts k e (status _) s row n a =
      subst (Accounts (lookup key_discrete k s) row) (plus_zero n) a
  apply-Accounts k e (packet p) s row n a = apply_packet-Accounts k e p s row n a

  apply-IsMap :
      (e : Event F) (p : Payload F) (s : State F)
      → IsMap key_discrete s
      → IsMap key_discrete (apply_payload fl e p s)
  unfolding apply_payload
  apply-IsMap e (status _) s m = m
  apply-IsMap e (packet p) s m = apply_packet-IsMap e p s m

  -- `Apply` of each event of a batch in turn.
  unfoldable pub applied : List (Event F) → State F → State F
  applied [] s = s
  applied (e ∷ es) s = applied es (apply fl e s)

  add_assoc : (a b c : ℕ) → a + b + c ≡ a + (b + c)
  add_assoc a b c = ground arith

  pub applied-Accounts :
      (k : NeighborKey) (es : List (Event F)) (s : State F) (row : Option (NeighborRow F)) (n : ℕ)
      → IsMap key_discrete s
      → Accounts (lookup key_discrete k s) row n
      → IsMap key_discrete (applied es s)
        × Accounts (lookup key_discrete k (applied es s)) row (n + packets_of k es)
  unfolding applied packets_of apply
  applied-Accounts k [] s row n m a =
      (m, subst (Accounts (lookup key_discrete k s) row) (plus_zero n) a)
  applied-Accounts k (e ∷ es) s row n m a =
      let (m', a') =
        applied-Accounts k es (apply_payload fl e e.payload s) row (n + one_of k e e.payload)
          (apply-IsMap e e.payload s m) (apply-Accounts k e e.payload s row n a) in
      (
        m',
        subst (Accounts (lookup key_discrete k (applied es (apply_payload fl e e.payload s))) row)
            (add_assoc n (one_of k e e.payload) (packets_of k es)) a',
      )
