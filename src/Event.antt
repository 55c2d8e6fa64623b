-- ===== src/Event.antt =====
-- The decoded events that flow through the projection pipeline:
-- internal/project/pipeline/types.go. `F` is Go's float64, whose arithmetic is a parameter
-- (`FloatOps` below). A time is the number of nanoseconds since Go's zero time, so `IsZero` is
-- `== 0` and `Truncate` rounds down to a multiple. A pointer that may be nil is an `Option`, and
-- a `[]byte` is a `Slice`. An `Event` holds its payload in the constructor of its kind.
use mesh_bug.Prelude.{ℕ, Bool, Option, Bytes, Slice, ltb, ◌==◌, ◌-◌, ◌%◌, ◌*◌}
use mesh_bug.Prelude.Ints.{ℤ}

abbrev pub Time : Type 0
Time = ℕ

-- t.Before(u), t.After(u), t.IsZero() and t.Truncate(d)
abbrev pub before : Time → Time → Bool
before t u = ltb t u

abbrev pub after : Time → Time → Bool
after t u = ltb u t

abbrev pub is_zero : Time → Bool
is_zero t = t == 0

abbrev pub truncate : Time → ℕ → Time
truncate t d = t - t % d

abbrev pub second : ℕ
second = 1_000_000_000

abbrev pub minute : ℕ
minute = 60 * second

abbrev pub hour : ℕ
hour = 60 * minute

-- The float64 operations that the stages use. `to_int` is the conversion `int64(x)`, `to_numeric`
-- is what a value becomes in a `numeric(6,2)` column, and `to_bandwidth` in a `numeric(10,3)` one.
pub record FloatOps (F : Type 0) : Type 0 where
  pub zero_float : F
  pub add_float : F → F → F
  pub mul_float : F → F → F
  pub div_float : F → F → F
  pub of_int : ℤ → F
  pub to_int : F → ℤ
  pub to_numeric : F → F
  pub to_bandwidth : F → F

pub record StatusPayload (F : Type 0) : Type 0 where
  pub status : Bytes
  pub origin : Bytes
  pub model : Bytes
  pub firmware_version : Bytes
  pub client_version : Bytes
  pub source : Bytes
  pub radio_freq_khz : Option ℤ
  pub radio_bw_khz : Option F
  pub radio_sf : Option ℤ
  pub radio_cr : Option ℤ
  pub uptime_secs : Option ℤ
  pub battery_mv : Option ℤ
  pub queue_len : Option ℤ
  pub noise_floor : Option ℤ
  pub tx_air_secs : Option ℤ
  pub rx_air_secs : Option ℤ
  pub recv_errors : Option ℤ
  pub last_rssi : Option ℤ
  pub last_snr : Option F
  pub debug_flags : Option ℤ

pub record AdvertInfo : Type 0 where
  pub public_key : Bytes
  pub timestamp : Time
  pub node_type : Bytes
  pub name : Bytes
  pub has_lat_lon : Bool
  pub lat_e6 : ℤ
  pub lon_e6 : ℤ
  pub has_feat1 : Bool
  pub feat1 : ℕ
  pub has_feat2 : Bool
  pub feat2 : ℕ

pub record PacketPayload (F : Type 0) : Type 0 where
  pub packet_hash : Slice
  pub direction : Bytes
  pub packet_type : Bytes
  pub route : Bytes
  pub len : Option ℤ
  pub payload_len : Option ℤ
  pub rssi : Option ℤ
  pub snr : Option F
  pub score : Option ℤ
  pub duration_ms : Option ℤ
  pub raw : Slice
  pub decoded_type : Option ℕ
  pub source_prefix : Slice
  pub dest_prefix : Slice
  pub transport_codes : Slice
  pub advert : Option AdvertInfo

-- EventKind with the payload that it selects.
pub data Payload (F : Type 0) : Type 0 where
  status : StatusPayload F → Payload F
  packet : PacketPayload F → Payload F

pub record Event (F : Type 0) : Type 0 where
  pub raw_id : ℕ
  pub ts : Time
  pub observer_id : Bytes
  pub topic : Bytes
  pub region : Bytes
  pub payload : Payload F
