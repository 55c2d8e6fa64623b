-- ===== src/Stages/Unique.antt =====
-- The stage that owns `packets_unique`: internal/project/stages/unique.go. `uniqueState.hash`
-- holds the bytes of the entry's key and is never written again, so it is read from the key.
pub mod Facts
pub mod Memory
pub mod Absorb
pub mod Rehydrate
pub mod Flush
pub mod Batch
pub mod Columns
pub mod Evict
use mathlib.Core.List.{lookup}
use mathlib.Core.Option
use mesh_bug.Prelude.{
  ℕ, ◌+◌, Bool, true, false, not, ◌&&◌, ◌||◌, Option, none, some, List, [], ◌∷◌, Bytes, Slice,
  slice_bytes, is_nil, ◌≡◌, refl, ◌++◌, if◌then◌else◌, ltb, length, min, max, select, text,
  bytes_discrete, foldl, ◌==◌,
}
use mesh_bug.Prelude.Maps.{Map, put, map_values, delete_where}
use mesh_bug.Prelude.Sets.{contains, add}
use mesh_bug.Event.{Event, PacketPayload, Payload, packet, status, Time, before, after, hour}
use mesh_bug.Store.{
  Db, UniqueRow, ObservationRow, Tx, Result, ok, err, Exec, ◌>>=◌, ◌>>◌, pure, query, modify, reads,
  Stage, coalesce, nullif_empty,
}
use mesh_bug.Stages.Loop.{Table, write_dirty, upsert}

abbrev pub unique_retention : ℕ
unique_retention = hour

pub record UniqueState : Type 0 where
  pub first_seen : Time
  pub last_seen : Time
  pub packet_type : Bytes
  pub route : Bytes
  pub decoded_type : Option ℕ
  pub source_prefix : Slice
  pub observers : List Bytes
  pub loaded : Bool
  pub dirty : Bool

-- PacketsUnique.state
abbrev pub State : Type 0
State = Map Bytes UniqueState

-- the row of `st` after INSERT … ON CONFLICT (packet_hash) DO UPDATE
unfoldable pub merge_row : UniqueState → Option UniqueRow → UniqueRow
merge_row st none = record {
  first_seen = st.first_seen;
  last_seen = st.last_seen;
  packet_type = some st.packet_type;
  route = some st.route;
  decoded_type = st.decoded_type;
  source_prefix = st.source_prefix;
  observer_count = length st.observers;
}
merge_row st (some r) = record {
  first_seen = min r.first_seen st.first_seen;
  last_seen = max r.last_seen st.last_seen;
  packet_type = coalesce (nullif_empty (some st.packet_type)) r.packet_type;
  route = coalesce (nullif_empty (some st.route)) r.route;
  decoded_type = coalesce st.decoded_type r.decoded_type;
  source_prefix = coalesce r.source_prefix st.source_prefix;
  observer_count = length st.observers;
}

-- the hashes that `rehydrateUnloaded` collects
unfoldable pub pending : State → List Bytes
pending [] = []
pending ((k, st) ∷ s) = elim (st.loaded || not st.dirty) [
  | true ↦ pending s
  | false ↦ k ∷ pending s
]

-- a row (packet_hash, observer_id, first_seen) of the join
pub record HistoryRow : Type 0 where
  pub hash : Bytes
  pub observer : Bytes
  pub first_seen : Time

-- one round of the loop over the rows of the join
unfoldable pub absorb : HistoryRow → UniqueState → UniqueState
absorb r st = record st {
  first_seen = if before r.first_seen st.first_seen then r.first_seen else st.first_seen;
  observers = add bytes_discrete r.observer st.observers;
}

unfoldable pub load_row : State → HistoryRow → State
unfolding absorb
load_row s r = elim (lookup bytes_discrete r.hash s) [
  | none ↦ s
  | some st ↦ put bytes_discrete r.hash (absorb r st) s
]

unfoldable pub mark_loaded : UniqueState → UniqueState
mark_loaded st = if not st.loaded && st.dirty then record st { loaded = true } else st

unfoldable pub set_clean : UniqueState → UniqueState
set_clean st = record st { dirty = false }

-- `st.lastSeen.Before(hwm.Add(-uniqueRetention))`, for an entry that is not dirty
unfoldable pub evictable : Time → UniqueState → Bool
evictable hwm st = not st.dirty && ltb (st.last_seen + unique_retention) hwm

unfoldable pub evict : Time → State → State
unfolding evictable set_clean
evict hwm s = map_values set_clean (delete_where (λ _ st. evictable hwm st) s)

-- an observation joined with its row of packets_unique, if its hash is asked for
unfoldable pub join_hash : List Bytes → Map Bytes UniqueRow → Bytes → Slice → List HistoryRow
join_hash hashes unique obs none = []
join_hash hashes unique obs (some h) =
    if contains bytes_discrete h hashes
    then (elim (lookup bytes_discrete h unique) [
      | none ↦ []
      | some pu ↦ record { hash = h; observer = obs; first_seen = pu.first_seen } ∷ []
    ])
    else []

module _ {F : Type 0} where
  -- the entry that `Apply` allocates for a hash that it does not hold
  unfoldable pub fresh : Event F → UniqueState
  fresh e = record {
    first_seen = e.ts;
    last_seen = e.ts;
    packet_type = [];
    route = [];
    decoded_type = none;
    source_prefix = none;
    observers = [];
    loaded = false;
    dirty = false;
  }

  -- the assignments of `Apply` to the entry
  unfoldable pub observe : Event F → PacketPayload F → UniqueState → UniqueState
  observe e p st = record {
    first_seen = if before e.ts st.first_seen then e.ts else st.first_seen;
    last_seen = if after e.ts st.last_seen then e.ts else st.last_seen;
    packet_type = if is_nil p.packet_type then st.packet_type else p.packet_type;
    route = if is_nil p.route then st.route else p.route;
    decoded_type = elim p.decoded_type [ none ↦ st.decoded_type | some t ↦ some t ];
    source_prefix = elim st.source_prefix [
      | none ↦ if is_nil (slice_bytes p.source_prefix) then none else p.source_prefix
      | some b ↦ some b
    ];
    observers = add bytes_discrete e.observer_id st.observers;
    loaded = st.loaded;
    dirty = true;
  }

  unfoldable pub apply_packet : Event F → PacketPayload F → State → State
  apply_packet e p s =
      let key = slice_bytes p.packet_hash in
      if is_nil key
      then s
      else put bytes_discrete key
          (observe e p (Option.get_or (lookup bytes_discrete key s) (fresh e))) s

  unfoldable pub apply_payload : Event F → Payload F → State → State
  unfolding apply_packet
  apply_payload e (status _) s = s
  apply_payload e (packet p) s = apply_packet e p s

  unfoldable pub apply : Event F → State → State
  unfolding apply_payload
  apply e s = apply_payload e e.payload s

  abbrev pub unique_table : Table (Db F) Bytes UniqueRow
  unique_table = record {
    read = λ d. d.packets_unique;
    write = λ m d. record d { packets_unique = m };
    read-write = λ m d. refl;
    write-write = λ m m' d. refl;
    write-read = λ d. refl;
  }

  unfoldable pub join : List Bytes → Db F → List (ObservationRow F) → List HistoryRow
  join hashes d [] = []
  join hashes d (po ∷ pos) =
      join_hash hashes d.packets_unique po.observer_id po.packet_hash ++ join hashes d pos

  unfoldable pub rehydrate_unloaded : Exec State (Db F) (Unit {0})
  unfolding pending join join_hash load_row mark_loaded query modify reads
  rehydrate_unloaded = do
    hashes ← reads pending
    if is_nil hashes then pure tt else do
      rows ← query (λ d. (join hashes d d.packet_observations, d))
      modify (λ s. map_values mark_loaded (foldl load_row s rows))

  unfoldable pub write_rows : Exec State (Db F) (Unit {0})
  unfolding write_dirty set_clean merge_row
  write_rows s t = write_dirty bytes_discrete unique_table (λ st. st.dirty) set_clean merge_row s t

  unfoldable pub flush : Exec State (Db F) (Unit {0})
  unfolding rehydrate_unloaded write_rows
  flush = do rehydrate_unloaded; write_rows

  unfoldable pub stage : (N : Type 0) → Stage (Event F) State (Db F) N
  unfolding apply flush evict
  stage N = record {
    name = text "packets_unique";
    apply = λ e s. (ok tt, apply e s);
    flush = flush;
    notify = λ s. ([], s);
    evict = evict;
    clear = λ s. [];
  }
