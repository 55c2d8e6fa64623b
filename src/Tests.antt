-- ===== src/Tests.antt =====
-- Concrete batches on which the theorems are applied, and what the definitions compute on them.
pub mod Feed
pub mod Replay
pub mod Alarms
pub mod Pages
use mathlib.Core.List.{lookup}
use mathlib.Core.Option
use mesh_bug.Prelude.{
  ℕ, ◌≡◌, ◌≢◌, ◌*◌, ◌+◌, ◌/◌, refl, true, false, Option, none, some, List, [], ◌∷◌, ◌++◌, map,
  Bytes, bytes_discrete, text, arith,
}
use mesh_bug.Prelude.Ints.{pos, pos_part}
use mesh_bug.Event.{FloatOps, Event, AdvertInfo, packet, second, status}
use mesh_bug.Store.{Db, ok}
use mesh_bug.Pipeline.{process_batch, Faults}
use mesh_bug.Pipeline.Atomic.{Atomic, process_batch-Atomic}
use mesh_bug.Projection.{start, packet_stages, no_faults}
use mesh_bug.Projection.Applied.{Good}
use mesh_bug.Projection.Batch.{batch-Good, observed, observed_payload}
use mesh_bug.Projection.Runs.{
  Step, batch, restart, says, run, all_observed, described, empty-Good, run-row, run-packets,
  run-same_rows,
}
use mesh_bug.Stages.Loop.{write_dirty}
use mesh_bug.Stages.Loop.Stop.{Stopped, write_dirty-Stopped}
use mesh_bug.Stages.Unique
use mesh_bug.Stages.Unique.{UniqueState, unique_table}
use mesh_bug.Stages.Unique.Flush.{row_of}
use mesh_bug.Stages.Observations.Flush.{packets}
use mesh_bug.Stages.Observations
use mesh_bug.Stages.Observations.Ids.{Ascending, flush-Ascending}
use mesh_bug.Stages.RollupNeighbor.{NeighborKey, key_discrete}
use mesh_bug.Stages.RollupNeighbor.Rounds
use mesh_bug.Stages.RollupNeighbor.Counts.{stored, packets_of}
use mesh_bug.Stages.Observers
use mesh_bug.Stages.Observers.Batch as ObserversBatch
use mesh_bug.Stages.Status
use mesh_bug.Stages.Status.Flush.{or_else, first_of, flush-first_of}
use mesh_bug.Stages.Signal.{no_signal, load_signal}
use mesh_bug.Stages.Signal.Bounds.{hear_all, load_signal-bounds}
use mesh_bug.Stages.Nodes
use mesh_bug.Stages.Nodes.Batch.{applied, one_by_one, Dated, flush-one_by_one, flush-cut}

abbrev no_rows : Db ℕ
no_rows = record {
  observers = [];
  observer_status = [];
  nodes = [];
  packets_unique = [];
  rollup_observer_1m = [];
  rollup_observer_1h = [];
  rollup_neighbor_1m = [];
  packet_observations = [];
  next_observation_id = 1;
  projector_state = [];
}

-- Numbers of thousandths, which a numeric(6,2) column rounds to hundredths.
instance abbrev whole_floats : FloatOps ℕ
whole_floats = record {
  zero_float = 0;
  add_float = λ a b. a + b;
  mul_float = λ a b. a * b;
  div_float = λ a b. a / b;
  of_int = pos_part;
  to_int = pos;
  to_numeric = λ a. (a + 5) / 10 * 10;
  to_bandwidth = λ a. a;
}

abbrev projector : Bytes
projector = text "default"

abbrev hash : Bytes
hash = 0xab ∷ 0xcd ∷ []

abbrev node : Bytes
node = 1 ∷ 2 ∷ 3 ∷ 4 ∷ 5 ∷ []

abbrev advert : ℕ → Bytes → AdvertInfo
advert timestamp name = record {
  public_key = node;
  timestamp = timestamp;
  node_type = text "repeater";
  name = name;
  has_lat_lon = false;
  lat_e6 = pos 0;
  lon_e6 = pos 0;
  has_feat1 = false;
  feat1 = 0;
  has_feat2 = false;
  feat2 = 0;
}

abbrev heard_by : ℕ → ℕ → Bytes → Option AdvertInfo → Event ℕ
heard_by id ts observer adv = record {
  raw_id = id;
  ts = ts;
  observer_id = observer;
  topic = [];
  region = [];
  payload = packet (record {
    packet_hash = some hash;
    direction = text "rx";
    packet_type = text "4";
    route = text "F";
    len = some (pos 40);
    payload_len = none;
    rssi = none;
    snr = some 7123;
    score = none;
    duration_ms = none;
    raw = none;
    decoded_type = some 4;
    source_prefix = some (7 ∷ []);
    dest_prefix = none;
    transport_codes = none;
    advert = adv;
  });
}

abbrev first_event : Event ℕ
first_event = heard_by 1 (20 * second) (text "a") (some (advert 100 (text "old")))

abbrev second_event : Event ℕ
second_event = heard_by 2 (10 * second) (text "b") (some (advert 200 (text "new")))

abbrev two_batches : List (Step ℕ)
two_batches = batch (first_event ∷ []) 1 ∷ restart ∷ batch (second_event ∷ []) 2 ∷ []

abbrev one_batch : List (Step ℕ)
one_batch = batch (first_event ∷ second_event ∷ []) 2 ∷ []

hash_full : hash ≢ []
hash_full e = cc

node_full : node ≢ []
node_full e = cc

run-row_example :
    Option.map says (row_of (run projector two_batches (no_rows, start)).0 hash)
    ≡ described hash (all_observed two_batches)
run-row_example =
    run-row projector no_rows two_batches hash refl refl
      (((ground arith), (ground arith, tt)), (((ground arith), (ground arith, tt)), tt)) hash_full

run-same_rows_example :
    Option.map says (row_of (run projector two_batches (no_rows, start)).0 hash)
    ≡ Option.map says (row_of (run projector one_batch (no_rows, start)).0 hash)
unfolding all_observed observed observed_payload
run-same_rows_example =
    run-same_rows projector no_rows two_batches one_batch hash refl refl
      (((ground arith), (ground arith, tt)), (((ground arith), (ground arith, tt)), tt))
      (((ground arith), (ground arith, (ground arith, tt))), tt) hash_full refl

run-packets_example :
    packets (run projector two_batches (no_rows, start)).0
    ≡ map Observations.columns_of (all_observed two_batches)
run-packets_example =
    run-packets projector no_rows two_batches refl refl
      (((ground arith), (ground arith, tt)), (((ground arith), (ground arith, tt)), tt))

abbrev refused_commit : Faults
refused_commit = record { begin = false; statements = []; commit = true }

process_batch-Atomic_example : Atomic projector 2 no_rows (
    process_batch packet_stages
      (first_event ∷ second_event ∷ [])
      projector
      2
      refused_commit
      start
      no_rows)
process_batch-Atomic_example =
    process_batch-Atomic packet_stages (first_event ∷ second_event ∷ []) projector 2 refused_commit
      start no_rows (ground arith)

flush-one_by_one_example :
    let (r, s, t) =
      Nodes.flush
        (applied (first_event ∷ second_event ∷ []) [])
        (record { db = no_rows; faults = [] }) in
    (r ≡ ok tt)
    × (lookup bytes_discrete node t.db.nodes
        ≡ one_by_one node (first_event ∷ second_event ∷ []) none)
unfolding lookup Dated
flush-one_by_one_example =
    flush-one_by_one (first_event ∷ second_event ∷ []) no_rows node node_full
      ((ground arith, ground arith), ((ground arith, ground arith), tt))

flush-Ascending_example :
    let s : Observations.State ℕ =
      Observations.apply second_event (Observations.apply first_event Observations.empty) in
    let d' = (Observations.flush s (record { db = no_rows; faults = false ∷ true ∷ [] })).2.db in
    Ascending d'.packet_observations d'.next_observation_id
flush-Ascending_example =
    flush-Ascending
      (Observations.apply second_event (Observations.apply first_event Observations.empty)) no_rows
      (false ∷ true ∷ []) tt

flush-cut_example :
    let d₁ =
      (Nodes.flush (applied (first_event ∷ []) []) (record { db = no_rows; faults = [] })).2.db in
    let d₂ =
      (Nodes.flush (applied (second_event ∷ []) []) (record { db = d₁; faults = [] })).2.db in
    let d₁₂ =
      (Nodes.flush
        (applied (first_event ∷ second_event ∷ []) [])
        (record { db = no_rows; faults = [] })).2.db in
    lookup bytes_discrete node d₂.nodes ≡ lookup bytes_discrete node d₁₂.nodes
unfolding Dated
flush-cut_example =
    flush-cut (first_event ∷ []) (second_event ∷ []) no_rows node node_full
      ((ground arith, ground arith), tt) ((ground arith, ground arith), tt)

abbrev two_entries : Unique.State
two_entries =
    Unique.apply second_event [] ++ map (λ e. (text "another", e.1)) (Unique.apply first_event [])

write_dirty-Stopped_example :
    Stopped bytes_discrete
      (unique_table {F = ℕ})
      (λ (st : UniqueState). st.dirty)
      Unique.set_clean
      Unique.merge_row
      two_entries
      no_rows
      (false ∷ true ∷ [])
      (write_dirty bytes_discrete
        (unique_table {F = ℕ})
        (λ (st : UniqueState). st.dirty)
        Unique.set_clean
        Unique.merge_row
        two_entries
        (record { db = no_rows; faults = false ∷ true ∷ [] }))
write_dirty-Stopped_example =
    write_dirty-Stopped bytes_discrete (unique_table {F = ℕ}) (λ (st : UniqueState). st.dirty)
      Unique.set_clean Unique.merge_row two_entries no_rows (false ∷ true ∷ [])

batch-Good_example :
    let o =
      process_batch packet_stages
        (first_event ∷ second_event ∷ [])
        projector
        2
        no_faults
        start
        no_rows in
    (o.result ≡ ok tt)
    × Good o.tables o.memory
    × (packets o.tables
        ≡ packets no_rows
          ++ map Observations.columns_of (observed (first_event ∷ second_event ∷ [])))
batch-Good_example =
    batch-Good no_rows start (first_event ∷ second_event ∷ []) projector 2 (ground arith)
      (ground arith, (ground arith, tt)) (empty-Good projector no_rows refl refl)

abbrev neighbor_rounds : List (Rounds.Round ℕ)
neighbor_rounds =
    Rounds.batch (first_event ∷ []) (20 * second)
    ∷ Rounds.restart
    ∷ Rounds.batch (first_event ∷ second_event ∷ []) (20 * second)
    ∷ []

abbrev neighbor_key : NeighborKey
neighbor_key = (text "a", 7 ∷ [], 0)

run-packets_of_example :
    stored whole_floats (
      lookup key_discrete neighbor_key
        (Rounds.run whole_floats neighbor_rounds (no_rows, [])).0.rollup_neighbor_1m)
    ≡ packets_of whole_floats neighbor_key (Rounds.all_events neighbor_rounds)
run-packets_of_example =
    Rounds.run-packets_of whole_floats no_rows neighbor_rounds neighbor_key refl

abbrev online : ℕ → Bytes → Event ℕ
online ts model = record {
  raw_id = 3;
  ts = ts;
  observer_id = text "a";
  topic = [];
  region = text "eu";
  payload = status (record {
    status = text "online";
    origin = text "roof";
    model = model;
    firmware_version = [];
    client_version = [];
    source = [];
    radio_freq_khz = some (pos 869_525);
    radio_bw_khz = some 62_500;
    radio_sf = some (pos 11);
    radio_cr = none;
    uptime_secs = none;
    battery_mv = none;
    queue_len = none;
    noise_floor = some (pos 3);
    tx_air_secs = none;
    rx_air_secs = none;
    recv_errors = none;
    last_rssi = none;
    last_snr = some 4567;
    debug_flags = none;
  });
}

abbrev messages : List (Event ℕ)
messages = online (9 * second) (text "v1") ∷ online (9 * second) [] ∷ []

flush-one_by_one_status_example :
    let (r, s, t) =
      Observers.flush (ObserversBatch.applied messages []) (record { db = no_rows; faults = [] }) in
    (r ≡ ok tt)
    × (lookup bytes_discrete (text "a") t.db.observers
        ≡ ObserversBatch.one_by_one
            (text "a")
            messages
            (lookup bytes_discrete (text "a") no_rows.observers))
flush-one_by_one_status_example = ObserversBatch.flush-one_by_one_status (text "a") messages no_rows

abbrev two_statuses : Status.State ℕ
two_statuses =
    Status.apply (online (9 * second) [])
      (Status.apply (online (9 * second) (text "v1")) Status.empty)

flush-first_of_example :
    let (r, s, t) = Status.flush two_statuses (record { db = no_rows; faults = [] }) in
    (r ≡ ok tt)
    × (lookup Status.key_discrete (text "a", 9 * second) t.db.observer_status
        ≡ or_else
            (lookup Status.key_discrete (text "a", 9 * second) no_rows.observer_status)
            (Option.map Status.columns_of (first_of (text "a", 9 * second) two_statuses.buf)))
flush-first_of_example = flush-first_of two_statuses no_rows (text "a", 9 * second)

load_signal-bounds_example :
    let old = hear_all whole_floats (pos 5 ∷ []) (no_signal whole_floats) in
    let s =
      load_signal whole_floats
        (some 5)
        old.min_rssi
        old.max_rssi
        none
        1
        (hear_all whole_floats (pos 3 ∷ pos 9 ∷ []) (no_signal whole_floats)) in
    (s.min_rssi
      ≡ (hear_all whole_floats (pos 5 ∷ pos 3 ∷ pos 9 ∷ []) (no_signal whole_floats)).min_rssi)
    × (s.max_rssi
        ≡ (hear_all whole_floats (pos 5 ∷ pos 3 ∷ pos 9 ∷ []) (no_signal whole_floats)).max_rssi)
load_signal-bounds_example =
    load_signal-bounds whole_floats (pos 3 ∷ pos 9 ∷ []) (pos 5 ∷ []) (some 5) none 1
