-- ===== src/Stages/Nodes.antt =====
-- The stage that owns `nodes`: internal/project/stages/nodes.go. `nodeRow.publicKey` holds the
-- bytes of the entry's key and is never written again, so it is read from the key.
pub mod Advert
pub mod Merge
pub mod Stands
pub mod Batch
use mathlib.Core.List.{lookup}
use mathlib.Core.Option
use mesh_bug.Prelude.{
  ℕ, ◌+◌, ◌==◌, ◌≡◌, refl, Bool, true, false, ◌||◌, Option, none, some, List, [], ◌∷◌, Bytes,
  if◌then◌else◌, is_nil, take, text, min, max, ltb, bytes_discrete,
}
use mesh_bug.Prelude.Ints.{ℤ, pos}
use mesh_bug.Prelude.Maps.{Map, put}
use mesh_bug.Event.{Event, AdvertInfo, Payload, packet, status, Time, before, after, is_zero}
use mesh_bug.Store.{Db, NodesRow, Result, ok, Exec, Stage}
use mesh_bug.Stages.Loop.{Table, write_dirty}

pub record NodeState : Type 0 where
  pub prefix1 : Bytes
  pub prefix4 : Bytes
  pub node_type : Bytes
  pub name : Bytes
  pub has_lat_lon : Bool
  pub lat_e6 : ℤ
  pub lon_e6 : ℤ
  pub has_feat1 : Bool
  pub feat1 : ℕ
  pub has_feat2 : Bool
  pub feat2 : ℕ
  pub advert_ts : Time
  pub advert_received_at : Time
  pub advert_count : ℕ
  pub first_seen : Time
  pub last_seen : Time

-- Nodes.touched
abbrev pub State : Type 0
State = Map Bytes NodeState

-- `take 4` is both branches of the test on the key's length.
unfoldable pub fresh : Time → Bytes → NodeState
fresh ts key = record {
  prefix1 = take 1 key;
  prefix4 = take 4 key;
  node_type = [];
  name = [];
  has_lat_lon = false;
  lat_e6 = pos 0;
  lon_e6 = pos 0;
  has_feat1 = false;
  feat1 = 0;
  has_feat2 = false;
  feat2 = 0;
  advert_ts = 0;
  advert_received_at = 0;
  advert_count = 0;
  first_seen = ts;
  last_seen = ts;
}

-- the count and the times that every advert moves
unfoldable pub sighted : Time → NodeState → NodeState
sighted ts row = record row {
  advert_count = row.advert_count + 1;
  first_seen = if before ts row.first_seen then ts else row.first_seen;
  last_seen = if after ts row.last_seen then ts else row.last_seen;
}

unfoldable pub adopt : Time → AdvertInfo → NodeState → NodeState
adopt ts adv row = record row {
  advert_ts = adv.timestamp;
  advert_received_at = ts;
  node_type = adv.node_type;
  name = adv.name;
  has_lat_lon = adv.has_lat_lon;
  lat_e6 = adv.lat_e6;
  lon_e6 = adv.lon_e6;
  has_feat1 = adv.has_feat1;
  feat1 = adv.feat1;
  has_feat2 = adv.has_feat2;
  feat2 = adv.feat2;
}

unfoldable pub observe : Time → AdvertInfo → NodeState → NodeState
unfolding sighted adopt
observe ts adv row₀ =
    let row = sighted ts row₀ in
    if adv.timestamp == row.advert_ts
    then (if is_zero row.advert_received_at || before ts row.advert_received_at
        then record row { advert_received_at = ts }
        else row)
    else if after adv.timestamp row.advert_ts
    then adopt ts adv row
    else row

unfoldable pub apply_advert : Time → AdvertInfo → State → State
unfolding fresh observe
apply_advert ts adv s =
    if is_nil adv.public_key
    then s
    else put bytes_discrete adv.public_key
        (observe ts adv
          (Option.get_or (lookup bytes_discrete adv.public_key s) (fresh ts adv.public_key)))
        s

-- a packet without an advert is left alone
unfoldable pub apply_found : Time → Option AdvertInfo → State → State
unfolding apply_advert
apply_found ts none s = s
apply_found ts (some adv) s = apply_advert ts adv s

-- SQL: a > b and GREATEST, LEAST on columns that may be NULL
abbrev pub newer : Option Time → Option Time → Bool
newer none old = false
newer (some new) none = true
newer (some new) (some old) = ltb old new

abbrev pub greatest : Option Time → Option Time → Option Time
greatest none b = b
greatest (some a) none = some a
greatest (some a) (some b) = some (max a b)

abbrev pub least : Option Time → Option Time → Option Time
least none b = b
least (some a) none = some a
least (some a) (some b) = some (min a b)

abbrev pub when {ℓ} : {A : Type ℓ} → Bool → A → Option A
when b a = if b then some a else none

-- the columns that `Flush` sends
unfoldable pub excluded : NodeState → NodesRow
excluded r = record {
  prefix1 = r.prefix1;
  prefix4 = r.prefix4;
  node_type = r.node_type;
  name = r.name;
  has_lat_lon = r.has_lat_lon;
  lat_e6 = when r.has_lat_lon r.lat_e6;
  lon_e6 = when r.has_lat_lon r.lon_e6;
  has_feat1 = r.has_feat1;
  feat1 = when r.has_feat1 r.feat1;
  has_feat2 = r.has_feat2;
  feat2 = when r.has_feat2 r.feat2;
  advert_timestamp = if is_zero r.advert_ts then none else some r.advert_ts;
  advert_received_at = if is_zero r.advert_received_at then none else some r.advert_received_at;
  advert_count = r.advert_count;
  first_seen = r.first_seen;
  last_seen = r.last_seen;
}

abbrev pub received : Option Time → Option Time → Option Time → Option Time → Option Time
received none old_ts new_at old_at = old_at
received (some new) none new_at old_at = new_at
received (some new) (some old) new_at old_at =
    if ltb old new then new_at else if new == old then least old_at new_at else old_at

-- ON CONFLICT (public_key) DO UPDATE
unfoldable pub update_row : NodesRow → NodesRow → NodesRow
update_row x n =
    let fresher = newer x.advert_timestamp n.advert_timestamp in
    record {
      prefix1 = n.prefix1;
      prefix4 = n.prefix4;
      node_type = if fresher then x.node_type else n.node_type;
      name = if fresher then x.name else n.name;
      has_lat_lon = if fresher then x.has_lat_lon else n.has_lat_lon;
      lat_e6 = if fresher then x.lat_e6 else n.lat_e6;
      lon_e6 = if fresher then x.lon_e6 else n.lon_e6;
      has_feat1 = if fresher then x.has_feat1 else n.has_feat1;
      feat1 = if fresher then x.feat1 else n.feat1;
      has_feat2 = if fresher then x.has_feat2 else n.has_feat2;
      feat2 = if fresher then x.feat2 else n.feat2;
      advert_timestamp = greatest n.advert_timestamp x.advert_timestamp;
      advert_received_at =
          received x.advert_timestamp n.advert_timestamp x.advert_received_at n.advert_received_at;
      advert_count = n.advert_count + x.advert_count;
      first_seen = min n.first_seen x.first_seen;
      last_seen = max n.last_seen x.last_seen;
    }

unfoldable pub merge_row : NodeState → Option NodesRow → NodesRow
unfolding excluded update_row
merge_row st none = excluded st
merge_row st (some n) = update_row (excluded st) n

unfoldable pub evict : ℕ → State → State
evict hwm s = []

module _ {F : Type 0} where
  unfoldable pub apply_payload : Event F → Payload F → State → State
  unfolding apply_found
  apply_payload e (status _) s = s
  apply_payload e (packet p) s = apply_found e.ts p.advert s

  unfoldable pub apply : Event F → State → State
  unfolding apply_payload
  apply e s = apply_payload e e.payload s

  abbrev pub nodes_table : Table (Db F) Bytes NodesRow
  nodes_table = record {
    read = λ d. d.nodes;
    write = λ m d. record d { nodes = m };
    read-write = λ m d. refl;
    write-write = λ m m' d. refl;
    write-read = λ d. refl;
  }

  unfoldable pub flush : Exec State (Db F) (Unit {0})
  unfolding write_dirty merge_row
  flush s t = write_dirty bytes_discrete nodes_table (λ st. true) (λ st. st) merge_row s t

  unfoldable pub stage : (N : Type 0) → Stage (Event F) State (Db F) N
  unfolding apply flush evict
  stage N = record {
    name = text "nodes";
    apply = λ e s. (ok tt, apply e s);
    flush = flush;
    notify = λ s. ([], s);
    evict = evict;
    clear = λ s. [];
  }
