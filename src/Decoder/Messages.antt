-- ===== src/Decoder/Messages.antt =====
-- The JSON messages of the observers and their numbers: internal/project/parse.go.
use mathlib.Core.Option
use mesh_bug.Prelude.{
  ◌==◌, ◌>>=◌, Option, none, some, List, [], ◌∷◌, Bytes, if◌then◌else◌, is_nil, text,
  bytes_discrete, ite,
}
use mesh_bug.Prelude.Ints.{ℤ, pos}
use mesh_bug.Event.{FloatOps}
use mesh_bug.Decoder.Text.{trim_space, split, parse_int}

-- statusMessage, less the fields that nothing reads
pub record StatusMessage (F : Type 0) : Type 0 where
  pub status : Bytes
  pub origin : Bytes
  pub source : Bytes
  pub client_version : Bytes
  pub radio : Bytes
  pub model : Bytes
  pub firmware_version : Bytes
  pub uptime_secs : Option ℤ
  pub battery_mv : Option ℤ
  pub debug_flags : Option ℤ
  pub queue_len : Option ℤ
  pub noise_floor : Option ℤ
  pub tx_air_secs : Option ℤ
  pub rx_air_secs : Option ℤ
  pub recv_errors : Option ℤ
  pub last_rssi : Option ℤ
  pub last_snr : Option F
  pub errors : Option ℤ

-- packetMessage, less the fields that nothing reads
pub record PacketMessage : Type 0 where
  pub direction : Bytes
  pub len : Bytes
  pub packet_type : Bytes
  pub route : Bytes
  pub payload_len : Bytes
  pub raw : Bytes
  pub snr : Bytes
  pub rssi : Bytes
  pub score : Bytes
  pub duration : Bytes
  pub hash : Bytes

-- What `parseRadio` returns.
pub record Radio (F : Type 0) : Type 0 where
  pub freq_khz : Option ℤ
  pub bw_khz : Option F
  pub sf : Option ℤ
  pub cr : Option ℤ

-- A message as encoding/json reads it: a field with an `UnmarshalJSON` of this package holds the
-- text that the library gives to that method, or none where it does not call it.
pub record StatusFields (F : Type 0) : Type 0 where
  pub status : Bytes
  pub origin : Bytes
  pub source : Bytes
  pub client_version : Bytes
  pub radio : Bytes
  pub model : Bytes
  pub firmware_version : Bytes
  pub uptime_secs : Option Bytes
  pub battery_mv : Option Bytes
  pub debug_flags : Option Bytes
  pub queue_len : Option Bytes
  pub noise_floor : Option Bytes
  pub tx_air_secs : Option Bytes
  pub rx_air_secs : Option Bytes
  pub recv_errors : Option Bytes
  pub last_rssi : Option Bytes
  pub last_snr : Option F
  pub errors : Option Bytes

pub record PacketFields : Type 0 where
  pub direction : Bytes
  pub len : Option Bytes
  pub packet_type : Option Bytes
  pub route : Bytes
  pub payload_len : Option Bytes
  pub raw : Bytes
  pub snr : Option Bytes
  pub rssi : Option Bytes
  pub score : Option Bytes
  pub duration : Option Bytes
  pub hash : Bytes

-- json.Unmarshal at the three types it is used at (none is an error), and strconv.ParseFloat.
pub record Reader (F : Type 0) : Type 0 where
  pub status_fields : Bytes → Option (StatusFields F)
  pub packet_fields : Bytes → Option PacketFields
  pub json_string : Bytes → Option Bytes
  pub parse_float : Bytes → Option F

module _ {F : Type 0} (lib : Reader F) (ops : FloatOps F) where
  -- (*flexStr).UnmarshalJSON, from the zero value
  unfoldable pub flex_str : Bytes → Option Bytes
  unfolding trim_space bytes_discrete
  flex_str [] = some []
  flex_str (c ∷ s) =
      ite (bytes_discrete (c ∷ s) (text "null")) (some [])
        (if c == b'"' then lib.json_string (c ∷ s) else some (trim_space (c ∷ s)))

  abbrev pub int_or_float : Bytes → Option ℤ
  int_or_float s = elim (parse_int s) [
    | some i ↦ some i
    | none ↦ Option.map ops.to_int (lib.parse_float s)
  ]

  -- (*flexInt64).UnmarshalJSON, from the zero value
  unfoldable pub flex_int64 : Bytes → Option ℤ
  unfolding trim_space bytes_discrete parse_int
  flex_int64 b =
      let s = trim_space b in
      if is_nil s
      then some (pos 0)
      else ite (bytes_discrete s (text "null")) (some (pos 0)) (int_or_float s)

  -- (*flexInt).UnmarshalJSON; an int has 64 bits
  unfoldable pub flex_int : Bytes → Option ℤ
  unfolding trim_space bytes_discrete parse_int
  flex_int b =
      let s = trim_space b in
      if is_nil s
      then some (pos 0)
      else ite (bytes_discrete s (text "null")) (some (pos 0)) (int_or_float s)

  -- a pointer field
  abbrev pub pointer : (Bytes → Option ℤ) → Option Bytes → Option (Option ℤ)
  pointer flex none = some none
  pointer flex (some b) = Option.map some (flex b)

  -- a field that is no pointer
  abbrev pub value : Option Bytes → Option Bytes
  value none = some []
  value (some b) = flex_str b

  unfoldable pub unmarshal_status : Bytes → Option (StatusMessage F)
  unfolding flex_int flex_int64
  unmarshal_status payload = do
    m ← lib.status_fields payload
    uptime_secs ← pointer flex_int64 m.uptime_secs
    battery_mv ← pointer flex_int m.battery_mv
    debug_flags ← pointer flex_int64 m.debug_flags
    queue_len ← pointer flex_int m.queue_len
    noise_floor ← pointer flex_int m.noise_floor
    tx_air_secs ← pointer flex_int64 m.tx_air_secs
    rx_air_secs ← pointer flex_int64 m.rx_air_secs
    recv_errors ← pointer flex_int64 m.recv_errors
    last_rssi ← pointer flex_int m.last_rssi
    errors ← pointer flex_int64 m.errors
    some (record {
      status = m.status;
      origin = m.origin;
      source = m.source;
      client_version = m.client_version;
      radio = m.radio;
      model = m.model;
      firmware_version = m.firmware_version;
      uptime_secs = uptime_secs;
      battery_mv = battery_mv;
      debug_flags = debug_flags;
      queue_len = queue_len;
      noise_floor = noise_floor;
      tx_air_secs = tx_air_secs;
      rx_air_secs = rx_air_secs;
      recv_errors = recv_errors;
      last_rssi = last_rssi;
      last_snr = m.last_snr;
      errors = errors;
    })

  unfoldable pub unmarshal_packet : Bytes → Option PacketMessage
  unfolding flex_str
  unmarshal_packet payload = do
    m ← lib.packet_fields payload
    len ← value m.len
    packet_type ← value m.packet_type
    payload_len ← value m.payload_len
    snr ← value m.snr
    rssi ← value m.rssi
    score ← value m.score
    duration ← value m.duration
    some (record {
      direction = m.direction;
      len = len;
      packet_type = packet_type;
      route = m.route;
      payload_len = payload_len;
      raw = m.raw;
      snr = snr;
      rssi = rssi;
      score = score;
      duration = duration;
      hash = m.hash;
    })

  -- atoiPtr, and atoiFlex
  unfoldable pub atoi_ptr : Bytes → Option ℤ
  unfolding trim_space parse_int
  atoi_ptr s = let t = trim_space s in if is_nil t then none else parse_int t

  -- atofPtr, and atofFlex
  unfoldable pub atof_ptr : Bytes → Option F
  unfolding trim_space
  atof_ptr s = let t = trim_space s in if is_nil t then none else lib.parse_float t

  abbrev pub freq_of : Bytes → Option ℤ
  freq_of p =
      Option.map (λ mhz. ops.to_int (ops.mul_float mhz (ops.of_int (pos 1000))))
        (lib.parse_float (trim_space p))

  abbrev pub radio_parts : List Bytes → Radio F
  radio_parts [] = record { freq_khz = none; bw_khz = none; sf = none; cr = none }
  radio_parts (f ∷ []) = record { freq_khz = freq_of f; bw_khz = none; sf = none; cr = none }
  radio_parts (f ∷ b ∷ []) = record {
    freq_khz = freq_of f;
    bw_khz = lib.parse_float (trim_space b);
    sf = none;
    cr = none;
  }
  radio_parts (f ∷ b ∷ s ∷ []) = record {
    freq_khz = freq_of f;
    bw_khz = lib.parse_float (trim_space b);
    sf = parse_int (trim_space s);
    cr = none;
  }
  radio_parts (f ∷ b ∷ s ∷ c ∷ ps) = record {
    freq_khz = freq_of f;
    bw_khz = lib.parse_float (trim_space b);
    sf = parse_int (trim_space s);
    cr = parse_int (trim_space c);
  }

  -- parseRadio: "freq,bw,sf,cr"
  unfoldable pub parse_radio : Bytes → Radio F
  unfolding split trim_space parse_int
  parse_radio s = radio_parts (split b',' s)
