-- ===== src/Decoder.antt =====
-- The decoder of raw events: `decoder` of internal/project/decoder.go. JSON, the parsing of floats
-- and the meshcore-go library are parameters; the log lines are left out.
pub mod Text
pub mod Hex
pub mod Utf8
pub mod Topic
pub mod Messages
pub mod Frame
pub mod Sound
pub mod Dropped
use mesh_bug.Prelude.{
  ℕ, ◌+◌, ◌/◌, ◌%◌, ◌==◌, Bool, Option, none, some, List, [], ◌∷◌, Bytes, Slice, slice_bytes, ◌>>=◌,
  if◌then◌else◌, is_nil, text, bytes_discrete, ite,
}
use mesh_bug.Prelude.Ints.{ℤ}
use mesh_bug.Event.{FloatOps, StatusPayload, PacketPayload, Event, Payload, status, packet}
use mesh_bug.RawLog.{RawEvent}
use mesh_bug.Decoder.Text.{trim_space, hex_decode}
use mesh_bug.Decoder.Topic.{parse_topic_hash}
use mesh_bug.Decoder.Messages.{
  Reader, StatusMessage, PacketMessage, unmarshal_status, unmarshal_packet, parse_radio, atoi_ptr,
  atof_ptr,
}
use mesh_bug.Decoder.Frame.{Mesh, Parsed, parse, neighbor_source, payload_dst_hash, decode_advert}

abbrev pub pick_errors : Option ℤ → Option ℤ → Option ℤ
pick_errors (some a) b = some a
pick_errors none b = b

-- The bytes of a hexadecimal field; the error of the decoding is dropped.
unfoldable pub hex_field : Bytes → Slice
unfolding hex_decode trim_space
hex_field [] = none
hex_field (c ∷ s) = some (hex_decode (trim_space (c ∷ s))).0

-- binary.LittleEndian.PutUint16
abbrev pub le16 : ℕ → Bytes → Bytes
le16 n rest = n % 256 ∷ n / 256 % 256 ∷ rest

abbrev or_else : Bytes → Bytes → Bytes
or_else [] other = other
or_else (c ∷ s) other = c ∷ s

module _ {F P A : Type 0} (lib : Reader F) (ops : FloatOps F) (mc : Mesh P A) where
  abbrev pub status_of : StatusMessage F → StatusPayload F
  status_of m =
      let radio = parse_radio lib ops m.radio in
      record {
        status = m.status;
        origin = m.origin;
        model = m.model;
        firmware_version = m.firmware_version;
        client_version = m.client_version;
        source = m.source;
        radio_freq_khz = radio.freq_khz;
        radio_bw_khz = radio.bw_khz;
        radio_sf = radio.sf;
        radio_cr = radio.cr;
        uptime_secs = m.uptime_secs;
        battery_mv = m.battery_mv;
        queue_len = m.queue_len;
        noise_floor = m.noise_floor;
        tx_air_secs = m.tx_air_secs;
        rx_air_secs = m.rx_air_secs;
        recv_errors = pick_errors m.recv_errors m.errors;
        last_rssi = m.last_rssi;
        last_snr = m.last_snr;
        debug_flags = m.debug_flags;
      }

  unfoldable pub decode_status : RawEvent → Option (StatusPayload F)
  unfolding unmarshal_status parse_radio
  decode_status raw = do m ← unmarshal_status lib ops raw.payload; some (status_of m)

  abbrev pub plain_packet : PacketMessage → PacketPayload F
  plain_packet m = record {
    packet_hash = hex_field m.hash;
    direction = m.direction;
    packet_type = m.packet_type;
    route = m.route;
    len = atoi_ptr lib ops m.len;
    payload_len = atoi_ptr lib ops m.payload_len;
    rssi = atoi_ptr lib ops m.rssi;
    snr = atof_ptr lib ops m.snr;
    score = atoi_ptr lib ops m.score;
    duration_ms = atoi_ptr lib ops m.duration;
    raw = hex_field m.raw;
    decoded_type = none;
    source_prefix = none;
    dest_prefix = none;
    transport_codes = none;
    advert = none;
  }

  -- the case `err == nil`
  unfoldable pub with_frame : P → PacketPayload F → PacketPayload F
  unfolding neighbor_source payload_dst_hash decode_advert
  with_frame pkt p = record p {
    decoded_type = some (mc.payload_type pkt);
    source_prefix = neighbor_source mc pkt;
    dest_prefix = payload_dst_hash mc pkt;
    transport_codes =
        if mc.is_transport pkt
        then some (le16 (mc.transport_code1 pkt) (le16 (mc.transport_code2 pkt) []))
        else none;
    route = or_else p.route (mc.route_type_string pkt);
    packet_type = or_else p.packet_type (mc.payload_type_string pkt);
    advert =
        if mc.payload_type pkt == mc.type_advert then decode_advert mc (mc.payload pkt) else none;
  }

  abbrev pub framed : Parsed P → PacketPayload F → PacketPayload F
  framed (Parsed.packet pkt) p = with_frame pkt p
  framed _ p = p

  unfoldable pub decode_packet : RawEvent → Option (PacketPayload F)
  unfolding unmarshal_packet hex_field atoi_ptr atof_ptr parse with_frame
  decode_packet raw = do
    m ← unmarshal_packet lib ops raw.payload
    let p = plain_packet m
    let bytes = slice_bytes p.raw
    some (if is_nil bytes then p else framed (parse mc bytes) p)

  abbrev pub payload_of : Bytes → RawEvent → Option (Payload F)
  payload_of kind raw =
      ite (bytes_discrete kind (text "status")) (do p ← decode_status raw; some (status p))
        (ite (bytes_discrete kind (text "packets")) (do p ← decode_packet raw; some (packet p))
          none)

  -- none is an event that the projector drops
  unfoldable pub decode : RawEvent → Option (Event F)
  unfolding parse_topic_hash bytes_discrete decode_status decode_packet
  decode raw = do
    t ← parse_topic_hash (text "meshcore/") raw.topic
    payload ← payload_of t.kind raw
    some (record {
      raw_id = raw.id;
      ts = raw.received_at;
      observer_id = t.id;
      topic = raw.topic;
      region = t.region;
      payload = payload;
    })
