-- ===== src/Stages/Nodes/Advert.antt =====
-- One advert more: in memory and then written, or written by itself on top of the row.
use mesh_bug.Prelude.{
  ℕ, ◌+◌, ◌<◌, ◌≡◌, true, false, Option, none, some, Bytes, take, arith, if◌then◌else◌, min, max,
  ltb, ◌⊎◌, ◌==◌,
}
use mesh_bug.Event.{AdvertInfo, Time, is_zero}
use mesh_bug.Store.{NodesRow}
use mesh_bug.Stages.Nodes.{
  NodeState, fresh, observe, excluded, update_row, merge_row, sighted, adopt, newer, received,
  greatest, when,
}

pub order : (a b : ℕ) → (a < b) ⊎ ((a ≡ b) ⊎ (b < a))
order a b = ground arith

-- The entry holds an advert, and was received.
pub record Heard (key : Bytes) (st : NodeState) : Type 0 where
  pub prefix1 : st.prefix1 ≡ take 1 key
  pub prefix4 : st.prefix4 ≡ take 4 key
  pub dated : 0 < st.advert_ts
  pub received_at : 0 < st.advert_received_at

pub observe-Heard :
    (key : Bytes) (ts : Time) (adv : AdvertInfo) (st : NodeState)
    → 0 < ts
    → 0 < adv.timestamp
    → Heard key st
    → Heard key (observe ts adv st)
unfolding observe sighted adopt
observe-Heard key ts adv st t a h = record {
  prefix1 = ground (arith, h.prefix1);
  prefix4 = ground (arith, h.prefix4);
  dated = ground (arith, h.dated);
  received_at = ground (arith, h.received_at);
}

pub observe-fresh-Heard :
    (key : Bytes) (ts : Time) (adv : AdvertInfo)
    → 0 < ts
    → 0 < adv.timestamp
    → Heard key (observe ts adv (fresh ts key))
unfolding observe sighted adopt fresh
observe-fresh-Heard key ts adv t a = record {
  prefix1 = ground arith;
  prefix4 = ground arith;
  dated = ground arith;
  received_at = ground arith;
}

-- The row after one advert by itself.
unfoldable pub row_observe : Bytes → Time → AdvertInfo → Option NodesRow → NodesRow
row_observe key ts adv row = merge_row (observe ts adv (fresh ts key)) row

earlier_or : (ts a : ℕ) → (if ltb ts a then ts else a) ≡ min a (if ltb ts ts then ts else ts)
earlier_or ts a = ground arith

later_or : (ts a : ℕ) → (if ltb a ts then ts else a) ≡ max a (if ltb ts ts then ts else ts)
later_or ts a = ground arith

-- What one advert says of its key by itself.
unfoldable pub heard : Bytes → Time → AdvertInfo → NodeState
heard key ts adv = adopt ts adv (sighted ts (fresh ts key))

module _ (key : Bytes) (ts : Time) (adv : AdvertInfo) where
  pub observe-heard : 0 < adv.timestamp → observe ts adv (fresh ts key) ≡ heard key ts adv
  unfolding observe heard sighted adopt fresh
  observe-heard a = ground arith

  module _ (st : NodeState) where
    pub observe-older : adv.timestamp < st.advert_ts → observe ts adv st ≡ sighted ts st
    unfolding observe sighted
    observe-older l = ground arith

    pub observe-same :
        adv.timestamp ≡ st.advert_ts
        → 0 < st.advert_received_at
        → observe ts adv st
          ≡ record (sighted ts st) { advert_received_at = min st.advert_received_at ts }
    unfolding observe sighted
    observe-same l p = ground arith

    pub observe-newer :
        st.advert_ts < adv.timestamp → observe ts adv st ≡ adopt ts adv (sighted ts st)
    unfolding observe sighted
    observe-newer l = ground arith

    -- an advert that is not newer leaves what is known of the node
    pub excluded-known :
        (at : ℕ)
        → 0 < ts
        → 0 < adv.timestamp
        → Heard key st
        → 0 < at
        → ltb st.advert_ts adv.timestamp ≡ false
        → at ≡ (
            if adv.timestamp == st.advert_ts
            then min st.advert_received_at ts
            else st.advert_received_at)
        → excluded (record (sighted ts st) { advert_received_at = at })
          ≡ update_row (excluded (heard key ts adv)) (excluded st)
    unfolding excluded update_row sighted heard adopt fresh
    excluded-known at t a h w old e = λ i. record {
      prefix1 = st.prefix1;
      prefix4 = st.prefix4;
      node_type = keep st.node_type adv.node_type i;
      name = keep st.name adv.name i;
      has_lat_lon = keep st.has_lat_lon adv.has_lat_lon i;
      lat_e6 = keep (when st.has_lat_lon st.lat_e6) (when adv.has_lat_lon adv.lat_e6) i;
      lon_e6 = keep (when st.has_lat_lon st.lon_e6) (when adv.has_lat_lon adv.lon_e6) i;
      has_feat1 = keep st.has_feat1 adv.has_feat1 i;
      feat1 = keep (when st.has_feat1 st.feat1) (when adv.has_feat1 adv.feat1) i;
      has_feat2 = keep st.has_feat2 adv.has_feat2 i;
      feat2 = keep (when st.has_feat2 st.feat2) (when adv.has_feat2 adv.feat2) i;
      advert_timestamp = stamp i;
      advert_received_at = receipt i;
      advert_count = st.advert_count + 1;
      first_seen = earlier_or ts st.first_seen i;
      last_seen = later_or ts st.last_seen i;
    }
      where
        opt : ℕ → Option ℕ
        opt n = if is_zero n then none else some n

        keep :
            {A : Type 0} (x y : A)
            → x ≡ (if newer (opt adv.timestamp) (opt st.advert_ts) then y else x)
        keep x y = ground (arith, old, h.dated)

        stamp : opt st.advert_ts ≡ greatest (opt st.advert_ts) (opt adv.timestamp)
        stamp = ground (arith, old, h.dated)

        receipt :
            opt at
            ≡ received (opt adv.timestamp) (opt st.advert_ts) (opt ts) (opt st.advert_received_at)
        receipt = ground (arith, old, h.dated, h.received_at)

    pub excluded-adopted :
        0 < ts
        → 0 < adv.timestamp
        → Heard key st
        → ltb st.advert_ts adv.timestamp ≡ true
        → excluded (adopt ts adv (sighted ts st))
          ≡ update_row (excluded (heard key ts adv)) (excluded st)
    unfolding excluded update_row sighted heard adopt fresh
    excluded-adopted t a h new = λ i. record {
      prefix1 = st.prefix1;
      prefix4 = st.prefix4;
      node_type = keep st.node_type adv.node_type i;
      name = keep st.name adv.name i;
      has_lat_lon = keep st.has_lat_lon adv.has_lat_lon i;
      lat_e6 = keep (when st.has_lat_lon st.lat_e6) (when adv.has_lat_lon adv.lat_e6) i;
      lon_e6 = keep (when st.has_lat_lon st.lon_e6) (when adv.has_lat_lon adv.lon_e6) i;
      has_feat1 = keep st.has_feat1 adv.has_feat1 i;
      feat1 = keep (when st.has_feat1 st.feat1) (when adv.has_feat1 adv.feat1) i;
      has_feat2 = keep st.has_feat2 adv.has_feat2 i;
      feat2 = keep (when st.has_feat2 st.feat2) (when adv.has_feat2 adv.feat2) i;
      advert_timestamp = stamp i;
      advert_received_at = receipt i;
      advert_count = st.advert_count + 1;
      first_seen = earlier_or ts st.first_seen i;
      last_seen = later_or ts st.last_seen i;
    }
      where
        opt : ℕ → Option ℕ
        opt n = if is_zero n then none else some n

        keep :
            {A : Type 0} (x y : A)
            → y ≡ (if newer (opt adv.timestamp) (opt st.advert_ts) then y else x)
        keep x y = ground (arith, new, h.dated)

        stamp : opt adv.timestamp ≡ greatest (opt st.advert_ts) (opt adv.timestamp)
        stamp = ground (arith, new, h.dated)

        receipt :
            opt ts
            ≡ received (opt adv.timestamp) (opt st.advert_ts) (opt ts) (opt st.advert_received_at)
        receipt = ground (arith, new, h.dated, h.received_at)
