-- ===== src/Store.antt =====
-- The `project` schema that the stages write (internal/store/migrations/project), as one value,
-- and a transaction over it. A table with a key is a map from the key to the other columns; an
-- append-only table is a list. NULL is `none`. Statements run in a transaction whose list `faults`
-- says of each statement in turn whether the server refuses it; past its end all succeed.
use mesh_bug.Prelude.{ℕ, Bool, true, false, Option, none, some, List, [], ◌∷◌, Bytes, Slice}
use mesh_bug.Prelude.Ints.{ℤ}
use mesh_bug.Prelude.Maps.{Map}
use mesh_bug.Event.{Time}

pub record ObserversRow (F : Type 0) : Type 0 where
  pub origin_name : Bytes
  pub region : Option Bytes
  pub model : Option Bytes
  pub firmware_version : Option Bytes
  pub client_version : Option Bytes
  pub source : Option Bytes
  pub radio_freq_khz : Option ℤ
  pub radio_bw_khz : Option F
  pub radio_sf : Option ℤ
  pub radio_cr : Option ℤ
  pub first_seen : Time
  pub last_seen : Time

-- Columns other than the key (observer_id, ts).
pub record StatusColumns (F : Type 0) : Type 0 where
  pub status : Bytes
  pub uptime_secs : Option ℤ
  pub battery_mv : Option ℤ
  pub queue_len : Option ℤ
  pub noise_floor : Option ℤ
  pub tx_air_secs : Option ℤ
  pub rx_air_secs : Option ℤ
  pub recv_errors : Option ℤ
  pub last_rssi : Option ℤ
  pub last_snr : Option F
  pub debug_flags : Option ℤ

pub record NodesRow : Type 0 where
  pub prefix1 : Bytes
  pub prefix4 : Bytes
  pub node_type : Bytes
  pub name : Bytes
  pub has_lat_lon : Bool
  pub lat_e6 : Option ℤ
  pub lon_e6 : Option ℤ
  pub has_feat1 : Bool
  pub feat1 : Option ℕ
  pub has_feat2 : Bool
  pub feat2 : Option ℕ
  pub advert_timestamp : Option Time
  pub advert_received_at : Option Time
  pub advert_count : ℕ
  pub first_seen : Time
  pub last_seen : Time

pub record UniqueRow : Type 0 where
  pub first_seen : Time
  pub last_seen : Time
  pub packet_type : Option Bytes
  pub route : Option Bytes
  pub decoded_type : Option ℕ
  pub source_prefix : Slice
  pub observer_count : ℕ

pub record RollupRow (F : Type 0) : Type 0 where
  pub packets : ℕ
  pub unique_pkts : ℕ
  pub flood_pkts : ℕ
  pub direct_pkts : ℕ
  pub avg_rssi : Option F
  pub min_rssi : Option ℤ
  pub max_rssi : Option ℤ
  pub avg_snr : Option F
  pub noise_floor : Option ℤ

pub record NeighborRow (F : Type 0) : Type 0 where
  pub packets : ℕ
  pub avg_rssi : Option F
  pub min_rssi : Option ℤ
  pub max_rssi : Option ℤ
  pub avg_snr : Option F

-- `packetRow` of internal/project/stages/packets.go
pub record PacketRow (F : Type 0) : Type 0 where
  pub ts : Time
  pub observer_id : Bytes
  pub packet_hash : Slice
  pub direction : Bytes
  pub packet_type : Bytes
  pub route : Bytes
  pub len : Option ℤ
  pub payload_len : Option ℤ
  pub rssi : Option ℤ
  pub snr : Option F
  pub score : Option ℤ
  pub duration_ms : Option ℤ
  pub raw : Slice
  pub decoded_type : Option ℕ
  pub source_prefix : Slice
  pub dest_prefix : Slice
  pub transport_codes : Slice

pub record ObservationRow (F : Type 0) : Type 0 where
  pub observation_id : ℕ
  pub packet : PacketRow F
  pub open packet use *

pub record Db (F : Type 0) : Type 0 where
  pub observers : Map Bytes (ObserversRow F)
  pub observer_status : Map (Bytes × Time) (StatusColumns F)
  pub nodes : Map Bytes NodesRow
  pub packets_unique : Map Bytes UniqueRow
  pub rollup_observer_1m : Map (Bytes × Time) (RollupRow F)
  pub rollup_observer_1h : Map (Bytes × Time) (RollupRow F)
  pub rollup_neighbor_1m : Map (Bytes × Bytes × Time) (NeighborRow F)
  pub packet_observations : List (ObservationRow F)
  pub next_observation_id : ℕ
  pub projector_state : Map Bytes ℕ

pub record Tx (D : Type 0) : Type 0 where
  pub db : D
  pub faults : List Bool

pub data Result {ℓ} (A : Type ℓ) : Type ℓ where
  ok : A → Result A
  err : Result A

-- An action over a stage's memory `S` and a transaction; what was changed in memory before an
-- error stays changed.
abbrev pub Exec : Type 0 → Type 0 → Type 0 → Type 0
Exec S D A = S → Tx D → Result A × S × Tx D

module _ {S D : Type 0} where
  abbrev pub pure : {A : Type 0} → A → Exec S D A
  pure a s t = (ok a, s, t)

  abbrev pub continue : {A B : Type 0} → Result A → (A → Exec S D B) → Exec S D B
  continue (ok a) f s t = f a s t
  continue err f s t = (err, s, t)

  infixl 5 ◌>>=◌ ◌>>◌
  abbrev pub ◌>>=◌ : {A B : Type 0} → Exec S D A → (A → Exec S D B) → Exec S D B
  ◌>>=◌ m f s t = let (r, s', t') = m s t in continue r f s' t'

  abbrev pub ◌>>◌ : {B : Type 0} → Exec S D (Unit {0}) → Exec S D B → Exec S D B
  m >> k = m >>= λ _. k

  abbrev pub answer : {A : Type 0} → List Bool → A × D → D → S → Result A × S × Tx D
  answer [] q d s = (ok q.0, s, record { db = q.1; faults = [] })
  answer (true ∷ fs) q d s = (err, s, record { db = d; faults = fs })
  answer (false ∷ fs) q d s = (ok q.0, s, record { db = q.1; faults = fs })

  -- One statement: its result and the tables after it.
  unfoldable pub query : {A : Type 0} → (D → A × D) → Exec S D A
  query q s t = answer t.faults (q t.db) t.db s

  unfoldable pub exec : (D → D) → Exec S D (Unit {0})
  unfolding query
  exec u = query (λ d. (tt, u d))

  -- A change of the stage's memory alone.
  unfoldable pub modify : (S → S) → Exec S D (Unit {0})
  modify f s t = (ok tt, f s, t)

  unfoldable pub reads : {A : Type 0} → (S → A) → Exec S D A
  reads f s t = (ok (f s), s, t)

-- A stage of the pipeline (the interface `Stage` of internal/project/pipeline/types.go): its
-- operations on its own memory `S`. What `Notify` hands to pg_notify is a list of messages.
pub record Stage (E S D N : Type 0) : Type 0 where
  pub name : Bytes
  pub apply : E → S → Result (Unit {0}) × S
  pub flush : Exec S D (Unit {0})
  pub notify : S → List N × S
  pub evict : ℕ → S → S
  pub clear : S → S

-- SQL: COALESCE(a, b) and NULLIF(a, '')
abbrev pub coalesce {ℓ} : {A : Type ℓ} → Option A → Option A → Option A
coalesce none b = b
coalesce (some a) b = some a

abbrev pub nullif_empty : Option Bytes → Option Bytes
nullif_empty none = none
nullif_empty (some []) = none
nullif_empty (some (x ∷ xs)) = some (x ∷ xs)
