-- ===== src/Tests/Replay.antt =====
-- A log of raw events, decoded and projected.
use mathlib.Core.List.{lookup}
use mesh_bug.Prelude.{
  ℕ, zero, suc, ◌+◌, ◌*◌, ◌/◌, ◌%◌, ◌-◌, ◌≤◌, ◌≡◌, ◌↔◌, refl, true, false, Option, none, some, List,
  [], ◌∷◌, ◌++◌, map, Bytes, bytes_discrete, text, arith,
}
use mesh_bug.Prelude.Ints.{pos, negsuc, pos_part}
use mesh_bug.Event.{FloatOps, Event, packet, second}
use mesh_bug.Store.{Db, Result, ok}
use mesh_bug.Notify.{Message, hex_encode}
use mesh_bug.Projection.{Memory, start, packet_stages, Dated}
use mesh_bug.Projection.Runs.{empty-Good}
use mesh_bug.RawLog.{RawEvent}
use mesh_bug.Decoder.Text.{trim_prefix, hex_decode}
use mesh_bug.Decoder.Hex.{IsBytes, hex_decode-hex_encode}
use mesh_bug.Decoder.Utf8.{is_utf8, no_nul, clean_text, clean_text-is_utf8}
use mesh_bug.Decoder.Topic.{TopicParts, parse_topic_hash}
use mesh_bug.Decoder.Topic.RoundTrip.{join, parse_topic_hash-join}
use mesh_bug.Decoder.Topic.Accepted.{Accepted, parse_topic_hash-Accepted}
use mesh_bug.Decoder.Messages.{Reader}
use mesh_bug.Decoder.Frame.{Mesh}
use mesh_bug.Decoder.Frame.Prefixes.{MeshBytes}
use mesh_bug.Decoder.Sound.{Decoded, decode-Decoded}
use mesh_bug.Decoder.Dropped.{Dropped, decode-none}
use mesh_bug.Decoder.{decode}
use mesh_bug.Projector.Pending.{Above}
use mesh_bug.Projector.Ends.{Below, catch_up-ends}
use mesh_bug.Projector.Cursor.{catch_up-Kept}
use mesh_bug.Projector.CaughtUp.{still, Finished, catch_up-Finished}
use mesh_bug.Projector.Rebuild.{Rebuilt, emptied, renewed, catch_up-reset}
use mesh_bug.Projector.{Turn, Projector, projector_name, highest, decoded, catch_up, load_cursor}

-- A message is its `raw` field; a frame is its payload of type 4 and an advert its name.
abbrev reader : Reader ℕ
reader = record {
  status_fields = λ s. none;
  packet_fields = λ s. some (record {
    direction = text "rx";
    len = some (text "40");
    packet_type = none;
    route = [];
    payload_len = none;
    raw = s;
    snr = some (text "\"7.123\"");
    rssi = some (text "\"-90\"");
    score = none;
    duration = none;
    hash = text "abcd";
  });
  json_string = λ s. some (text "-90");
  parse_float = λ s. some 7123;
}

-- Numbers of thousandths.
instance abbrev floats : FloatOps ℕ
floats = record {
  zero_float = 0;
  add_float = λ a b. a + b;
  mul_float = λ a b. a * b;
  div_float = λ a b. a;
  of_int = pos_part;
  to_int = pos;
  to_numeric = λ a. (a + 5) / 10 * 10;
  to_bandwidth = λ a. a;
}

abbrev mesh : Mesh Bytes Bytes
mesh = record {
  packet_from_bytes = λ s. some s;
  payload_ver = λ p. 0;
  payload_type = λ p. 4;
  payload = λ p. map (λ b. b % 256) p;
  path_hashes = λ p. [];
  is_transport = λ p. true;
  transport_code1 = λ p. 0x1234;
  transport_code2 = λ p. 7;
  route_type_string = λ p. text "F";
  payload_type_string = λ p. text "4";
  type_req = 0;
  type_response = 1;
  type_txt_msg = 2;
  type_path = 8;
  type_grp_txt = 5;
  type_grp_data = 6;
  type_anon_req = 7;
  type_advert = 4;
  advert_from_bytes = λ s. some s;
  public_key_bytes = λ a. map (λ b. b % 256) a;
  timestamp = λ a. 100;
  flags = λ a. 0x91;
  app_type = λ a. text "repeater";
  app_name = λ a. a;
  app_lat = λ a. pos 1;
  app_lon = λ a. pos 2;
  app_feat1 = λ a. 3;
  app_feat2 = λ a. 4;
  lat_lon_mask = 0x10;
  feat1_mask = 0x20;
  feat2_mask = 0x40;
}

abbrev pub observer : Bytes
observer =
    0xf0 ∷ 0x92 ∷ 2 ∷ 3 ∷ 4 ∷ 5 ∷ 6 ∷ 7 ∷ 8 ∷ 9 ∷ 10 ∷ 11 ∷ 12 ∷ 13 ∷ 14 ∷ 15 ∷ 16 ∷ 17 ∷ 18 ∷ 19
    ∷ 20 ∷ 21 ∷ 22 ∷ 23 ∷ 24 ∷ 25 ∷ 26 ∷ 27 ∷ 28 ∷ 29 ∷ 30 ∷ 31 ∷ []

observer-IsBytes : IsBytes observer
observer-IsBytes = ground arith

abbrev pub topic : Bytes
topic =
    text "meshcore/" ++ join b'/' (text "BUF") (hex_encode observer ∷ ([] ++ text "packets" ∷ []))

abbrev topic_read : TopicParts
topic_read = record { id = observer; region = text "BUF"; kind = text "packets" }

parse_topic_hash-join_example : parse_topic_hash (text "meshcore/") topic ≡ some topic_read
parse_topic_hash-join_example =
    parse_topic_hash-join (text "meshcore/") (text "BUF") observer (text "packets") []
      (refl, (refl, (refl, tt))) (refl, (refl, (refl, (refl, (refl, (refl, (refl, tt))))))) tt refl
      observer-IsBytes

parse_topic_hash-Accepted_example : Accepted (trim_prefix (text "meshcore/") topic) topic_read
parse_topic_hash-Accepted_example =
    parse_topic_hash-Accepted (text "meshcore/") topic topic_read parse_topic_hash-join_example

short_id : parse_topic_hash (text "meshcore/") (text "meshcore/BUF/F0924D/status") ≡ none
unfolding parse_topic_hash
short_id = refl

hex_decode-hex_encode_example : hex_decode (hex_encode observer) ≡ (observer, true)
hex_decode-hex_encode_example = hex_decode-hex_encode observer observer-IsBytes

abbrev odd_name : Bytes
odd_name = 0x61 ∷ 0 ∷ 0xff ∷ 0xfe ∷ 0xc3 ∷ 0xa9 ∷ 0xe2 ∷ 0x82 ∷ []

clean_text-is_utf8_example :
    (is_utf8 [] (clean_text odd_name) ≡ true) × (no_nul (clean_text odd_name) ≡ true)
clean_text-is_utf8_example = clean_text-is_utf8 odd_name

odd_name_cleaned :
    clean_text odd_name ≡ 0x61 ∷ 0xef ∷ 0xbf ∷ 0xbd ∷ 0xc3 ∷ 0xa9 ∷ 0xef ∷ 0xbf ∷ 0xbd ∷ []
unfolding clean_text
odd_name_cleaned = refl

-- The frame's hexadecimal text ends at the first digit that is none.
abbrev raw_at : ℕ → RawEvent
raw_at id = record {
  id = id;
  received_at = 20 * second;
  broker = text "b";
  topic = topic;
  payload = text " 61C3zz";
}

abbrev stray : RawEvent
stray = record {
  id = 9;
  received_at = second;
  broker = text "b";
  topic = text "meshcore/x/y";
  payload = [];
}

decode-none_example : (decode reader floats mesh stray ≡ none) ↔ Dropped reader floats stray
decode-none_example = decode-none reader floats mesh stray

abbrev pub event_at : ℕ → Event ℕ
event_at id = record {
  raw_id = id;
  ts = 20 * second;
  observer_id = observer;
  topic = topic;
  region = text "BUF";
  payload = packet (record {
    packet_hash = some (0xab ∷ 0xcd ∷ []);
    direction = text "rx";
    packet_type = text "4";
    route = text "F";
    len = some (pos 40);
    payload_len = none;
    rssi = some (negsuc 89);
    snr = some 7123;
    score = none;
    duration_ms = none;
    raw = some (0x61 ∷ 0xc3 ∷ []);
    decoded_type = some 4;
    source_prefix = none;
    dest_prefix = none;
    transport_codes = some (0x34 ∷ 0x12 ∷ 7 ∷ 0 ∷ []);
    advert = some (record {
      public_key = 0x61 ∷ 0xc3 ∷ [];
      timestamp = 62_135_596_900 * second;
      node_type = text "repeater";
      name = 0x61 ∷ 0xef ∷ 0xbf ∷ 0xbd ∷ [];
      has_lat_lon = true;
      lat_e6 = pos 1;
      lon_e6 = pos 2;
      has_feat1 = false;
      feat1 = 0;
      has_feat2 = false;
      feat2 = 0;
    });
  });
}

read_packet : (id : ℕ) → decode reader floats mesh (raw_at id) ≡ some (event_at id)
unfolding decode hex_encode
read_packet id = refl

remainders-IsBytes : (s : Bytes) → IsBytes (map (λ b. b % 256) s)
remainders-IsBytes [] = tt
remainders-IsBytes (b ∷ bs) = (omega arith, remainders-IsBytes bs)

mesh-MeshBytes : MeshBytes mesh
mesh-MeshBytes = record {
  payload = remainders-IsBytes;
  path_hashes = λ p. tt;
  public_key = remainders-IsBytes;
}

decode-Decoded_example : Decoded (raw_at 1) (event_at 1)
decode-Decoded_example =
    decode-Decoded reader floats mesh mesh-MeshBytes (raw_at 1) (event_at 1) (read_packet 1)

abbrev read : RawEvent → Option (Event ℕ)
read = decode reader floats mesh

abbrev empty_tables : Db ℕ
empty_tables = record {
  observers = [];
  observer_status = [];
  nodes = [];
  packets_unique = [];
  rollup_observer_1m = [];
  rollup_observer_1h = [];
  rollup_neighbor_1m = [];
  packet_observations = [];
  next_observation_id = 1;
  projector_state = (projector_name, 1) ∷ [];
}

abbrev projector : Projector ℕ (Memory ℕ) Message
projector = record { cursor = 1; memory = start; tables = empty_tables; sent = [] }

abbrev later_rows : List RawEvent
later_rows = raw_at 2 ∷ stray ∷ []

abbrev rows : List RawEvent
rows = raw_at 1 ∷ later_rows

rows-Above : Above 0 rows
rows-Above = ground arith

later_rows-Dated : Dated (decoded read later_rows)
unfolding decoded decode hex_encode
later_rows-Dated = (omega arith, tt)

rows-Dated : Dated (decoded read rows)
unfolding decoded decode hex_encode
rows-Dated = (omega arith, (omega arith, tt))

catch_up-Finished_example :
    Finished read later_rows projector (catch_up read packet_stages 3 false (still rows) projector)
unfolding highest
catch_up-Finished_example =
    catch_up-Finished read 2 (raw_at 1 ∷ []) later_rows projector rows-Above refl later_rows-Dated
      (empty-Good projector_name empty_tables refl refl) (omega arith)

catch_up-reset_example :
    ((load_cursor (emptied projector)).0 ≡ ok tt)
    × ((renewed projector).cursor ≡ 0)
    × Rebuilt read rows (catch_up read packet_stages 4 false (still rows) (renewed projector))
unfolding lookup bytes_discrete
catch_up-reset_example =
    catch_up-reset read 3 rows projector 1 refl rows-Above rows-Dated (omega arith)

catch_up-Kept_example :
    (q : Projector ℕ (Memory ℕ) Message) × ((lookup bytes_discrete projector_name
          q.tables.projector_state
        ≡ some q.cursor)
      × (1 ≤ q.cursor))
unfolding lookup bytes_discrete
catch_up-Kept_example =
    let (q, e, u) = catch_up-Finished_example in
    (q, catch_up-Kept read packet_stages 3 false (still rows) projector q (ok tt) refl e)

-- The commit of the first turn is refused.
abbrev refusing : ℕ → Turn
refusing zero = record {
  rows = rows;
  unreadable = false;
  faults = record { begin = false; statements = []; commit = true };
}
refusing (suc i) = still rows i

refusing-Below : (i : ℕ) → Below 9 (refusing i).rows
refusing-Below zero = ground arith
refusing-Below (suc i) = ground arith

catch_up-ends_example :
    (r : Result (Unit {0}) × Projector ℕ (Memory ℕ) Message) × (catch_up read packet_stages
        (suc (9 - 1))
        false
        refusing
        projector
      ≡ some r)
catch_up-ends_example = catch_up-ends read packet_stages 9 false refusing projector refusing-Below
