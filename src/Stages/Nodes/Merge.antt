-- ===== src/Stages/Nodes/Merge.antt =====
-- The conflict clause of `nodes`: rows of adverts may be merged in either grouping.
use mesh_bug.Prelude.{
  ℕ, ◌+◌, ◌≡◌, refl, Option, none, some, arith, if◌then◌else◌, min, max, ltb, ◌==◌,
}
use mesh_bug.Store.{NodesRow}
use mesh_bug.Stages.Nodes.{update_row, newer, received, greatest}

-- The newer of two values, as ON CONFLICT chooses it.
pick_assoc :
    {A : Type 0} (a b : ℕ) (m : Option ℕ) (x y n : A)
    → (if newer (some (max b a)) m then (if ltb b a then x else y) else n)
      ≡ (if newer (some a) (greatest m (some b)) then x else (if newer (some b) m then y else n))
pick_assoc a b none x y n = ground arith
pick_assoc a b (some m) x y n = ground arith

received_assoc :
    (a b p q : ℕ) (m r : Option ℕ)
    → received
        (some (max b a))
        m
        (if ltb b a then some p else if a == b then some (min q p) else some q)
        r
      ≡ received (some a) (greatest m (some b)) (some p) (received (some b) m (some q) r)
received_assoc a b p q none none = ground arith
received_assoc a b p q none (some r) = ground arith
received_assoc a b p q (some m) none = ground arith
received_assoc a b p q (some m) (some r) = ground arith

greatest_assoc :
    (a b : ℕ) (m : Option ℕ) → greatest m (some (max b a)) ≡ greatest (greatest m (some b)) (some a)
greatest_assoc a b none = refl
greatest_assoc a b (some m) = ground arith

add_assoc : (n y x : ℕ) → n + (y + x) ≡ n + y + x
add_assoc n y x = ground arith

min_assoc : (n y x : ℕ) → min n (min y x) ≡ min (min n y) x
min_assoc n y x = ground arith

max_assoc : (n y x : ℕ) → max n (max y x) ≡ max (max n y) x
max_assoc n y x = ground arith

-- Three rows whose adverts have times may be merged in either grouping.
pub update_row_assoc :
    (x y n : NodesRow) (a b p q : ℕ)
    → x.advert_timestamp ≡ some a
    → y.advert_timestamp ≡ some b
    → x.advert_received_at ≡ some p
    → y.advert_received_at ≡ some q
    → update_row (update_row x y) n ≡ update_row x (update_row y n)
unfolding update_row
update_row_assoc x y n a b p q xa yb xp yq =
    rw (xa, yb, xp, yq)
      (λ i. record {
        prefix1 = n.prefix1;
        prefix4 = n.prefix4;
        node_type = pick_assoc a b n.advert_timestamp x.node_type y.node_type n.node_type i;
        name = pick_assoc a b n.advert_timestamp x.name y.name n.name i;
        has_lat_lon = pick_assoc a b n.advert_timestamp x.has_lat_lon y.has_lat_lon n.has_lat_lon i;
        lat_e6 = pick_assoc a b n.advert_timestamp x.lat_e6 y.lat_e6 n.lat_e6 i;
        lon_e6 = pick_assoc a b n.advert_timestamp x.lon_e6 y.lon_e6 n.lon_e6 i;
        has_feat1 = pick_assoc a b n.advert_timestamp x.has_feat1 y.has_feat1 n.has_feat1 i;
        feat1 = pick_assoc a b n.advert_timestamp x.feat1 y.feat1 n.feat1 i;
        has_feat2 = pick_assoc a b n.advert_timestamp x.has_feat2 y.has_feat2 n.has_feat2 i;
        feat2 = pick_assoc a b n.advert_timestamp x.feat2 y.feat2 n.feat2 i;
        advert_timestamp = greatest_assoc a b n.advert_timestamp i;
        advert_received_at = received_assoc a b p q n.advert_timestamp n.advert_received_at i;
        advert_count = add_assoc n.advert_count y.advert_count x.advert_count i;
        first_seen = min_assoc n.first_seen y.first_seen x.first_seen i;
        last_seen = max_assoc n.last_seen y.last_seen x.last_seen i;
      })
