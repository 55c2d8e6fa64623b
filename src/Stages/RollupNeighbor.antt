-- ===== src/Stages/RollupNeighbor.antt =====
-- The stage that owns `rollup_neighbor_1m`: internal/project/stages/rollup_neighbor.go. The
-- accumulator's copies of the key are read from the key, as in `RollupObserver`.
pub mod Flush
pub mod Counts
pub mod Rounds
use mathlib.Core.List.{lookup}
use mathlib.Core.Option
use mesh_bug.Prelude.{
  ℕ, ◌+◌, refl, Bool, true, false, not, ◌&&◌, ◌||◌, Option, none, some, List, [], ◌∷◌, Bytes,
  slice_bytes, if◌then◌else◌, is_nil, ltb, foldl, text, bytes_discrete, ℕ_discrete,
}
use mesh_bug.Prelude.Maps.{Map, put, map_values, delete_where}
use mesh_bug.Prelude.Sets.{contains}
use mesh_bug.Event.{
  Event, PacketPayload, Payload, FloatOps, packet, status, Time, truncate, minute, hour,
}
use mesh_bug.Store.{Db, NeighborRow, ok, Exec, ◌>>=◌, ◌>>◌, pure, query, modify, reads, Stage}
use mesh_bug.Stages.Loop.{Table, write_dirty}
use mesh_bug.Stages.Signal.{Signal, no_signal, hear_rssi, hear_snr, avg_rssi, avg_snr, load_signal}

-- neighborBucketKey: observer, source prefix, bucket
abbrev pub NeighborKey : Type 0
NeighborKey = Bytes × Bytes × Time

unfoldable pub key_discrete : Discrete NeighborKey
unfolding bytes_discrete ℕ_discrete
key_discrete = hlevel (bytes_discrete, ℕ_discrete)

pub record NeighborAccum (F : Type 0) : Type 0 where
  pub packets : ℕ
  pub signal : Signal F
  pub loaded : Bool
  pub dirty : Bool

-- RollupNeighbor1m.state
abbrev pub State : Type 0 → Type 0
State F = Map NeighborKey (NeighborAccum F)

module _ {F : Type 0} where
  abbrev pub neighbor_table : Table (Db F) NeighborKey (NeighborRow F)
  neighbor_table = record {
    read = λ d. d.rollup_neighbor_1m;
    write = λ m d. record d { rollup_neighbor_1m = m };
    read-write = λ m d. refl;
    write-write = λ m m' d. refl;
    write-read = λ d. refl;
  }

  -- the keys that `rehydrateUnloaded` collects
  unfoldable pub pending : State F → List NeighborKey
  pending [] = []
  pending ((k, acc) ∷ s) = elim (acc.loaded || not acc.dirty) [
    | true ↦ pending s
    | false ↦ k ∷ pending s
  ]

  unfoldable pub rows_in :
      List NeighborKey → Map NeighborKey (NeighborRow F) → List (NeighborKey × NeighborRow F)
  rows_in keys [] = []
  rows_in keys ((k, r) ∷ m) = elim (contains key_discrete k keys) [
    | true ↦ (k, r) ∷ rows_in keys m
    | false ↦ rows_in keys m
  ]

  unfoldable pub mark_loaded : NeighborAccum F → NeighborAccum F
  mark_loaded acc = if not acc.loaded && acc.dirty then record acc { loaded = true } else acc

  unfoldable pub set_clean : NeighborAccum F → NeighborAccum F
  set_clean acc = record acc { dirty = false }

  -- `bucketEnd.Before(hwm.Add(-time.Hour))` for the bucket of a key
  unfoldable pub evictable : Time → NeighborKey → NeighborAccum F → Bool
  evictable hwm (o, src, bucket) acc = not acc.dirty && ltb (bucket + minute + hour) hwm

  unfoldable pub evict : Time → State F → State F
  unfolding evictable set_clean
  evict hwm s = map_values set_clean (delete_where (evictable hwm) s)

module _ {F : Type 0} (fl : FloatOps F) where
  abbrev pub fresh : NeighborAccum F
  fresh = record { packets = 0; signal = no_signal fl; loaded = false; dirty = false }

  unfoldable pub count_packet : PacketPayload F → NeighborAccum F → NeighborAccum F
  unfolding hear_rssi hear_snr
  count_packet p acc = record acc {
    packets = acc.packets + 1;
    signal = hear_snr fl p.snr (hear_rssi fl p.rssi acc.signal);
    dirty = true;
  }

  unfoldable pub apply_packet : Event F → PacketPayload F → State F → State F
  unfolding count_packet
  apply_packet e p s =
      let key : NeighborKey = (e.observer_id, slice_bytes p.source_prefix, truncate e.ts minute) in
      if is_nil (slice_bytes p.source_prefix)
      then s
      else put key_discrete key (count_packet p (Option.get_or (lookup key_discrete key s) fresh)) s

  unfoldable pub apply_payload : Event F → Payload F → State F → State F
  unfolding apply_packet
  apply_payload e (status _) s = s
  apply_payload e (packet p) s = apply_packet e p s

  unfoldable pub apply : Event F → State F → State F
  unfolding apply_payload
  apply e s = apply_payload e e.payload s

  -- the row after INSERT … ON CONFLICT (observer_id, source_prefix, bucket) DO UPDATE
  unfoldable pub merge_row : NeighborAccum F → Option (NeighborRow F) → NeighborRow F
  unfolding avg_rssi avg_snr
  merge_row acc old = record {
    packets = acc.packets;
    avg_rssi = Option.map fl.to_numeric (avg_rssi fl acc.signal);
    min_rssi = acc.signal.min_rssi;
    max_rssi = acc.signal.max_rssi;
    avg_snr = Option.map fl.to_numeric (avg_snr fl acc.signal);
  }

  unfoldable pub load_totals : NeighborRow F → NeighborAccum F → NeighborAccum F
  unfolding load_signal
  load_totals r acc = record acc {
    packets = acc.packets + r.packets;
    signal = load_signal fl r.avg_rssi r.min_rssi r.max_rssi r.avg_snr r.packets acc.signal;
  }

  unfoldable pub load_row : State F → NeighborKey × NeighborRow F → State F
  unfolding load_totals
  load_row s (k, r) = elim (lookup key_discrete k s) [
    | none ↦ s
    | some acc ↦ put key_discrete k (load_totals r acc) s
  ]

  unfoldable pub rehydrate_unloaded : Exec (State F) (Db F) (Unit {0})
  unfolding pending rows_in load_row mark_loaded reads query modify
  rehydrate_unloaded = do
    keys ← reads pending
    if is_nil keys then pure tt else do
      rows ← query (λ d. (rows_in keys d.rollup_neighbor_1m, d))
      modify (λ s. map_values mark_loaded (foldl load_row s rows))

  unfoldable pub write_rows : Exec (State F) (Db F) (Unit {0})
  unfolding write_dirty set_clean merge_row
  write_rows s t =
      write_dirty key_discrete neighbor_table (λ acc. acc.dirty) set_clean merge_row s t

  unfoldable pub flush : Exec (State F) (Db F) (Unit {0})
  unfolding rehydrate_unloaded write_rows
  flush = do rehydrate_unloaded; write_rows

  unfoldable pub stage : (N : Type 0) → Stage (Event F) (State F) (Db F) N
  unfolding apply flush evict
  stage N = record {
    name = text "rollup_neighbor_1m";
    apply = λ e s. (ok tt, apply e s);
    flush = flush;
    notify = λ s. ([], s);
    evict = evict;
    clear = λ s. [];
  }
