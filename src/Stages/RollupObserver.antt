-- ===== src/Stages/RollupObserver.antt =====
-- The stages that own `rollup_observer_1m` and `rollup_observer_1h`:
-- internal/project/stages/rollup_observer.go. The accumulator's `observerID` and `bucket` hold the
-- entry's key and are never written again, so they are read from the key; the key's `int64` bucket
-- is `UnixNano` of the bucket's start, here the start itself.
use mathlib.Core.List.{lookup}
use mathlib.Core.Option
use mesh_bug.Prelude.{
  ℕ, ◌+◌, ◌*◌, refl, Bool, true, false, not, ◌&&◌, ◌||◌, Option, none, some, List, [], ◌∷◌, ◌++◌,
  Bytes, slice_bytes, if◌then◌else◌, is_nil, ltb, leb, length, foldl, text, bytes_discrete,
  ℕ_discrete, ite,
}
use mesh_bug.Prelude.Ints.{ℤ}
use mesh_bug.Prelude.Maps.{Map, put, map_values, delete_where}
use mesh_bug.Prelude.Sets.{contains, add}
use mesh_bug.Event.{
  Event, PacketPayload, StatusPayload, FloatOps, packet, status, Time, after, truncate, minute,
  hour,
}
use mesh_bug.Store.{
  Db, RollupRow, ObservationRow, ok, Exec, ◌>>=◌, ◌>>◌, pure, query, modify, reads, Stage, coalesce,
}
use mesh_bug.Stages.Loop.{Table, write_dirty}
use mesh_bug.Stages.Signal.{Signal, no_signal, hear_rssi, hear_snr, avg_rssi, avg_snr, load_signal}

-- obsBucketKey
abbrev pub BucketKey : Type 0
BucketKey = Bytes × Time

unfoldable pub key_discrete : Discrete BucketKey
unfolding bytes_discrete ℕ_discrete
key_discrete = hlevel (bytes_discrete, ℕ_discrete)

pub record ObserverAccum (F : Type 0) : Type 0 where
  pub packets : ℕ
  pub unique_pkts : List Bytes
  pub flood_pkts : ℕ
  pub direct_pkts : ℕ
  pub signal : Signal F
  pub noise_floor : Option ℤ
  pub noise_floor_ts : Time
  pub loaded : Bool
  pub dirty : Bool

-- RollupObserver.state
abbrev pub State : Type 0 → Type 0
State F = Map BucketKey (ObserverAccum F)

-- the fields in which the two rollups differ
pub record Config (F : Type 0) : Type 0 where
  pub table_name : Bytes
  pub table : Table (Db F) BucketKey (RollupRow F)
  pub bucket_dur : ℕ
  pub retention : ℕ

abbrev pub one_minute : {F : Type 0} → Config F
one_minute = record {
  table_name = text "rollup_observer_1m";
  table = record {
    read = λ d. d.rollup_observer_1m;
    write = λ m d. record d { rollup_observer_1m = m };
    read-write = λ m d. refl;
    write-write = λ m m' d. refl;
    write-read = λ d. refl;
  };
  bucket_dur = minute;
  retention = hour;
}

abbrev pub one_hour : {F : Type 0} → Config F
one_hour = record {
  table_name = text "rollup_observer_1h";
  table = record {
    read = λ d. d.rollup_observer_1h;
    write = λ m d. record d { rollup_observer_1h = m };
    read-write = λ m d. refl;
    write-write = λ m m' d. refl;
    write-read = λ d. refl;
  };
  bucket_dur = hour;
  retention = 24 * hour;
}

abbrev pub flood : Bytes
flood = text "F"

abbrev pub direct : Bytes
direct = text "D"

-- if s == r { n++ }
abbrev pub count_route : Bytes → Bytes → ℕ → ℕ
count_route r s n = ite (bytes_discrete s r) (n + 1) n

module _ {F : Type 0} (fl : FloatOps F) where
  -- the accumulator that `touch` allocates
  abbrev pub fresh : ObserverAccum F
  fresh = record {
    packets = 0;
    unique_pkts = [];
    flood_pkts = 0;
    direct_pkts = 0;
    signal = no_signal fl;
    noise_floor = none;
    noise_floor_ts = 0;
    loaded = false;
    dirty = false;
  }

  -- `touch`, with the assignments that its caller makes to the accumulator
  unfoldable pub touch : (ObserverAccum F → ObserverAccum F) → BucketKey → State F → State F
  touch change key s =
      put key_discrete key (change (Option.get_or (lookup key_discrete key s) fresh)) s

  unfoldable pub count_packet : PacketPayload F → ObserverAccum F → ObserverAccum F
  unfolding hear_rssi hear_snr
  count_packet p acc = record acc {
    packets = acc.packets + 1;
    unique_pkts =
        if is_nil (slice_bytes p.packet_hash)
        then acc.unique_pkts
        else add bytes_discrete (slice_bytes p.packet_hash) acc.unique_pkts;
    flood_pkts = count_route flood p.route acc.flood_pkts;
    direct_pkts = count_route direct p.route acc.direct_pkts;
    signal = hear_snr fl p.snr (hear_rssi fl p.rssi acc.signal);
    dirty = true;
  }

  unfoldable pub apply_packet : Config F → Event F → PacketPayload F → State F → State F
  unfolding touch count_packet
  apply_packet c e p s = touch (count_packet p) (e.observer_id, truncate e.ts c.bucket_dur) s

  unfoldable pub note_noise : Time → ℤ → ObserverAccum F → ObserverAccum F
  note_noise ts v acc =
      if after ts acc.noise_floor_ts
      then record acc { noise_floor = some v; noise_floor_ts = ts; dirty = true }
      else acc

  unfoldable pub apply_status : Config F → Event F → StatusPayload F → State F → State F
  unfolding touch note_noise
  apply_status c e p s = elim p.noise_floor [
    | none ↦ s
    | some v ↦ touch (note_noise e.ts v) (e.observer_id, truncate e.ts c.bucket_dur) s
  ]

  unfoldable pub apply : Config F → Event F → State F → State F
  unfolding apply_packet apply_status
  apply c e s = elim e.payload [ packet p ↦ apply_packet c e p s | status p ↦ apply_status c e p s ]

  -- the row after INSERT … ON CONFLICT (observer_id, bucket) DO UPDATE
  unfoldable pub merge_row : ObserverAccum F → Option (RollupRow F) → RollupRow F
  unfolding avg_rssi avg_snr
  merge_row acc old = record {
    packets = acc.packets;
    unique_pkts = length acc.unique_pkts;
    flood_pkts = acc.flood_pkts;
    direct_pkts = acc.direct_pkts;
    avg_rssi = Option.map fl.to_numeric (avg_rssi fl acc.signal);
    min_rssi = acc.signal.min_rssi;
    max_rssi = acc.signal.max_rssi;
    avg_snr = Option.map fl.to_numeric (avg_snr fl acc.signal);
    noise_floor = coalesce acc.noise_floor (Option.bind old (λ r. r.noise_floor));
  }

  -- the keys that `rehydrateUnloaded` collects
  unfoldable pub pending : State F → List BucketKey
  pending [] = []
  pending ((k, acc) ∷ s) = elim (acc.loaded || not acc.dirty) [
    | true ↦ pending s
    | false ↦ k ∷ pending s
  ]

  -- the rows of the table whose keys are asked for
  unfoldable pub rows_in :
      List BucketKey → Map BucketKey (RollupRow F) → List (BucketKey × RollupRow F)
  rows_in keys [] = []
  rows_in keys ((k, r) ∷ m) = elim (contains key_discrete k keys) [
    | true ↦ (k, r) ∷ rows_in keys m
    | false ↦ rows_in keys m
  ]

  unfoldable pub load_totals : RollupRow F → ObserverAccum F → ObserverAccum F
  unfolding load_signal
  load_totals r acc = record acc {
    packets = acc.packets + r.packets;
    flood_pkts = acc.flood_pkts + r.flood_pkts;
    direct_pkts = acc.direct_pkts + r.direct_pkts;
    signal = load_signal fl r.avg_rssi r.min_rssi r.max_rssi r.avg_snr r.packets acc.signal;
    noise_floor = coalesce acc.noise_floor r.noise_floor;
  }

  -- acc, ok := s.state[key]; if !ok { continue }; …
  unfoldable pub change_held : BucketKey → (ObserverAccum F → ObserverAccum F) → State F → State F
  change_held key change s = elim (lookup key_discrete key s) [
    | none ↦ s
    | some acc ↦ put key_discrete key (change acc) s
  ]

  unfoldable pub load_row : State F → BucketKey × RollupRow F → State F
  unfolding change_held load_totals
  load_row s (k, r) = change_held k (load_totals r) s

  -- a row (observer_id, packet_hash, ts) of the join with the pending buckets
  pub record HashRow : Type 0 where
    pub observer : Bytes
    pub hash : Bytes
    pub ts : Time

  unfoldable pub in_bucket : ℕ → ObservationRow F → BucketKey → Bool
  in_bucket dur po (o, start) =
      ite (bytes_discrete po.observer_id o) (leb start po.ts && ltb po.ts (start + dur)) false

  unfoldable pub hash_rows_of : ℕ → ObservationRow F → List BucketKey → List HashRow
  unfolding in_bucket
  hash_rows_of dur po [] = []
  hash_rows_of dur po (k ∷ ks) = elim po.packet_hash [
    | none ↦ []
    | some h ↦
        if in_bucket dur po k
        then record { observer = po.observer_id; hash = h; ts = po.ts } ∷ hash_rows_of dur po ks
        else hash_rows_of dur po ks
  ]

  unfoldable pub hash_rows : ℕ → List BucketKey → List (ObservationRow F) → List HashRow
  unfolding hash_rows_of
  hash_rows dur keys [] = []
  hash_rows dur keys (po ∷ pos) = hash_rows_of dur po keys ++ hash_rows dur keys pos

  unfoldable pub load_hash : ℕ → State F → HashRow → State F
  unfolding change_held
  load_hash dur s r =
      change_held (r.observer, truncate r.ts dur)
        (λ acc. record acc { unique_pkts = add bytes_discrete r.hash acc.unique_pkts }) s

  unfoldable pub mark_loaded : ObserverAccum F → ObserverAccum F
  mark_loaded acc = if not acc.loaded && acc.dirty then record acc { loaded = true } else acc

  unfoldable pub load_row_totals : Config F → List BucketKey → Exec (State F) (Db F) (Unit {0})
  unfolding rows_in load_row query modify
  load_row_totals c keys = do
    rows ← query (λ d. (rows_in keys (c.table.read d), d))
    modify (λ s. foldl load_row s rows)

  unfoldable pub load_historical_hashes :
      Config F → List BucketKey → Exec (State F) (Db F) (Unit {0})
  unfolding hash_rows load_hash query modify
  load_historical_hashes c keys = do
    rows ← query (λ d. (hash_rows c.bucket_dur keys d.packet_observations, d))
    modify (λ s. foldl (load_hash c.bucket_dur) s rows)

  unfoldable pub rehydrate_unloaded : Config F → Exec (State F) (Db F) (Unit {0})
  unfolding pending load_row_totals load_historical_hashes mark_loaded reads
  rehydrate_unloaded c = do
    keys ← reads pending
    if is_nil keys then pure tt else do
      load_row_totals c keys
      load_historical_hashes c keys
      modify (map_values mark_loaded)

  unfoldable pub set_clean : ObserverAccum F → ObserverAccum F
  set_clean acc = record acc { dirty = false }

  unfoldable pub write_rows : Config F → Exec (State F) (Db F) (Unit {0})
  unfolding write_dirty set_clean merge_row
  write_rows c s t = write_dirty key_discrete c.table (λ acc. acc.dirty) set_clean merge_row s t

  unfoldable pub flush : Config F → Exec (State F) (Db F) (Unit {0})
  unfolding rehydrate_unloaded write_rows
  flush c = do rehydrate_unloaded c; write_rows c

  -- `bucketEnd.Before(hwm.Add(-retention))` for the bucket of a key
  unfoldable pub evictable : Config F → Time → BucketKey → ObserverAccum F → Bool
  evictable c hwm (o, bucket) acc = not acc.dirty && ltb (bucket + c.bucket_dur + c.retention) hwm

  unfoldable pub evict : Config F → Time → State F → State F
  unfolding evictable set_clean
  evict c hwm s = map_values set_clean (delete_where (evictable c hwm) s)

  unfoldable pub stage : (N : Type 0) → Config F → Stage (Event F) (State F) (Db F) N
  unfolding apply flush evict
  stage N c = record {
    name = c.table_name;
    apply = λ e s. (ok tt, apply c e s);
    flush = flush c;
    notify = λ s. ([], s);
    evict = evict c;
    clear = λ s. [];
  }
