-- ===== src/Decoder/Sound.antt =====
-- What every event that the decoder lets through satisfies.
use mesh_bug.Prelude.{
  ℕ, zero, suc, ◌^◌, ◌<◌, ◌==◌, Bool, true, false, Option, none, some, [], ◌∷◌, Bytes, length,
  slice_bytes, ◌>>=◌, if◌then◌else◌, is_nil, text, bytes_discrete, ite, ◌≡◌, refl, sym, ap, subst,
  arith, Option-cases, inl, inr,
}
use mesh_bug.Prelude.Ints.{ℤ, pos, negsuc}
use mesh_bug.Event.{FloatOps, StatusPayload, PacketPayload, Event, Payload, status, packet}
use mesh_bug.RawLog.{RawEvent}
use mesh_bug.Decoder.Text.{unsigned, trim_prefix, int64_of, parse_int, trim_space}
use mesh_bug.Decoder.Hex.{IsBytes, hex_decode-IsBytes}
use mesh_bug.Decoder.Topic.{TopicParts, parse_topic_hash}
use mesh_bug.Decoder.Topic.Accepted.{Accepted, parse_topic_hash-Accepted}
use mesh_bug.Decoder.Messages.{Reader, PacketMessage, unmarshal_packet, atoi_ptr}
use mesh_bug.Decoder.Frame.{Mesh, Parsed, parse, decode_advert}
use mesh_bug.Decoder.Frame.Prefixes.{
  IfAny, MeshBytes, IsOneByte, IsPrefix, AdvertOk, payload_dst_hash-IsOneByte,
  neighbor_source-IsPrefix, decode_advert-AdvertOk,
}
use mesh_bug.Decoder.{
  hex_field, le16, plain_packet, with_frame, framed, decode_packet, decode_status, payload_of,
  decode,
}

-- An int64.
abbrev pub IsInt64 : ℤ → Type 0
IsInt64 (pos n) = n < 2 ^ 63
IsInt64 (negsuc n) = n < 2 ^ 63

IfAny-bind :
    {A B : Type 0} (P : B → Type 0) (o : Option A) (f : A → Option B)
    → ((a : A) → IfAny P (f a))
    → IfAny P (o >>= f)
IfAny-bind P none f h = tt
IfAny-bind P (some a) f h = h a

IfAny-map :
    {A B : Type 0} (P : A → Type 0) (Q : B → Type 0) (o : Option A) (f : A → B)
    → ((a : A) → P a → Q (f a))
    → IfAny P o
    → IfAny Q (o >>= λ a. some (f a))
IfAny-map P Q none f h k = tt
IfAny-map P Q (some a) f h k = h a k

IfAny-ite :
    {A C : Type 0} (P : A → Type 0) (d : Dec C) (x y : Option A)
    → IfAny P x
    → IfAny P y
    → IfAny P (ite d x y)
IfAny-ite P (yes c) x y h k = h
IfAny-ite P (no c) x y h k = k

int64_of-IsInt64 : (minus : Bool) (o : Option ℕ) → IfAny IsInt64 (int64_of minus o)
int64_of-IsInt64 minus none = tt
int64_of-IsInt64 false (some n) = ground arith
int64_of-IsInt64 true (some zero) = ground arith
int64_of-IsInt64 true (some (suc n)) = ground arith

parse_int-IsInt64 : (s : Bytes) → IfAny IsInt64 (parse_int s)
unfolding parse_int
parse_int-IsInt64 [] = tt
parse_int-IsInt64 (c ∷ s) = ground (
  arith,
  int64_of-IsInt64 true (unsigned s),
  int64_of-IsInt64 false (unsigned s),
  int64_of-IsInt64 false (unsigned (c ∷ s)),
)

hex_field-IsBytes : (s : Bytes) → IfAny IsBytes (hex_field s)
unfolding hex_field
hex_field-IsBytes [] = tt
hex_field-IsBytes (c ∷ s) = hex_decode-IsBytes (trim_space (c ∷ s))

abbrev pub IsCodes : Bytes → Type 0
IsCodes s = (length s ≡ 4) × IsBytes s

-- The packet of an event.
pub record PacketOk {F : Type 0} (p : PacketPayload F) : Type 0 where
  pub hash_bytes : IfAny IsBytes p.packet_hash
  pub raw_bytes : IfAny IsBytes p.raw
  pub len_fits : IfAny IsInt64 p.len
  pub payload_len_fits : IfAny IsInt64 p.payload_len
  pub rssi_fits : IfAny IsInt64 p.rssi
  pub score_fits : IfAny IsInt64 p.score
  pub duration_fits : IfAny IsInt64 p.duration_ms
  pub codes : IfAny IsCodes p.transport_codes
  pub source : IfAny IsPrefix p.source_prefix
  pub dest : IfAny IsOneByte p.dest_prefix
  pub advert_ok : IfAny AdvertOk p.advert

abbrev pub PayloadOk : {F : Type 0} → Payload F → Type 0
PayloadOk (status s) = Unit
PayloadOk (packet p) = PacketOk p

-- How an event stands to the raw event that it was decoded from.
pub record Decoded {F : Type 0} (raw : RawEvent) (e : Event F) : Type 0 where
  pub parts : TopicParts
  pub accepted : Accepted (trim_prefix (text "meshcore/") raw.topic) parts
  pub same_id : e.raw_id ≡ raw.id
  pub same_time : e.ts ≡ raw.received_at
  pub same_topic : e.topic ≡ raw.topic
  pub observer : e.observer_id ≡ parts.id
  pub region : e.region ≡ parts.region
  pub payload_ok : PayloadOk e.payload

module _ {F P A : Type 0} (lib : Reader F) (ops : FloatOps F) (mc : Mesh P A)
    (given : MeshBytes mc) where
  atoi_ptr-IsInt64 : (s : Bytes) → IfAny IsInt64 (atoi_ptr lib ops s)
  unfolding atoi_ptr
  atoi_ptr-IsInt64 s = ground (arith, parse_int-IsInt64 (trim_space s))

  le16_lem : (n m : ℕ) → (length (le16 n (le16 m [])) ≡ 4) × IsBytes (le16 n (le16 m []))
  le16_lem n m = (refl, (omega arith, (omega arith, (omega arith, (omega arith, tt)))))

  plain-PacketOk : (m : PacketMessage) → PacketOk (plain_packet lib ops mc m)
  plain-PacketOk m = record {
    hash_bytes = hex_field-IsBytes m.hash;
    raw_bytes = hex_field-IsBytes m.raw;
    len_fits = atoi_ptr-IsInt64 m.len;
    payload_len_fits = atoi_ptr-IsInt64 m.payload_len;
    rssi_fits = atoi_ptr-IsInt64 m.rssi;
    score_fits = atoi_ptr-IsInt64 m.score;
    duration_fits = atoi_ptr-IsInt64 m.duration;
    codes = tt;
    source = tt;
    dest = tt;
    advert_ok = tt;
  }

  with_frame-PacketOk :
      (pkt : P) (p : PacketPayload F) → PacketOk p → PacketOk (with_frame lib ops mc pkt p)
  unfolding with_frame
  with_frame-PacketOk pkt p k = record {
    hash_bytes = k.hash_bytes;
    raw_bytes = k.raw_bytes;
    len_fits = k.len_fits;
    payload_len_fits = k.payload_len_fits;
    rssi_fits = k.rssi_fits;
    score_fits = k.score_fits;
    duration_fits = k.duration_fits;
    codes = codes_of (mc.is_transport pkt);
    source = neighbor_source-IsPrefix mc given pkt;
    dest = payload_dst_hash-IsOneByte mc given pkt;
    advert_ok = advert_of (mc.payload_type pkt == mc.type_advert);
  }
    where
      codes_of :
          (b : Bool)
          → IfAny IsCodes (
              if b
              then some (le16 (mc.transport_code1 pkt) (le16 (mc.transport_code2 pkt) []))
              else none)
      codes_of true = le16_lem (mc.transport_code1 pkt) (mc.transport_code2 pkt)
      codes_of false = tt

      advert_of :
          (b : Bool) → IfAny AdvertOk (if b then decode_advert mc (mc.payload pkt) else none)
      advert_of true = decode_advert-AdvertOk mc given (mc.payload pkt)
      advert_of false = tt

  framed-PacketOk :
      (r : Parsed P) (p : PacketPayload F) → PacketOk p → PacketOk (framed lib ops mc r p)
  framed-PacketOk (Parsed.packet pkt) p k = with_frame-PacketOk pkt p k
  framed-PacketOk Parsed.short p k = k
  framed-PacketOk Parsed.do_not_retransmit p k = k
  framed-PacketOk Parsed.malformed p k = k

  decode_packet-PacketOk : (raw : RawEvent) → IfAny PacketOk (decode_packet lib ops mc raw)
  unfolding decode_packet
  decode_packet-PacketOk raw =
      IfAny-bind PacketOk (unmarshal_packet lib ops raw.payload) _
        (λ m. chosen m (is_nil (slice_bytes (hex_field m.raw))))
    where
      chosen :
          (m : PacketMessage) (b : Bool)
          → PacketOk (
              if b
              then plain_packet lib ops mc m
              else framed lib ops mc
                  (parse mc (slice_bytes (hex_field m.raw)))
                  (plain_packet lib ops mc m))
      chosen m true = plain-PacketOk m
      chosen m false =
          framed-PacketOk (parse mc (slice_bytes (hex_field m.raw))) (plain_packet lib ops mc m)
            (plain-PacketOk m)

  payload_of-PayloadOk :
      (kind : Bytes) (raw : RawEvent) → IfAny PayloadOk (payload_of lib ops mc kind raw)
  payload_of-PayloadOk kind raw =
      IfAny-ite PayloadOk (bytes_discrete kind (text "status")) _ _
        (IfAny-map (λ _. Unit) PayloadOk (decode_status lib ops mc raw) status (λ p h. h)
          (trivial (decode_status lib ops mc raw)))
        (IfAny-ite PayloadOk (bytes_discrete kind (text "packets")) _ _
          (IfAny-map PacketOk PayloadOk (decode_packet lib ops mc raw) packet (λ p h. h)
            (decode_packet-PacketOk raw))
          tt)
    where
      trivial : (o : Option (StatusPayload F)) → IfAny (λ _. Unit {0}) o
      trivial none = tt
      trivial (some p) = tt

  -- When the byte slices of the meshcore-go library hold bytes, every event that the decoder lets
  -- through has the identifier, the time and the topic of its raw event and the region and the
  -- 32-byte observer of that topic; in a packet, the hash, the raw frame and the public key of an
  -- advert hold bytes, the lengths, the RSSI, the score and the duration are int64 values, the
  -- transport codes are four bytes, the destination is one, the source is at least one, and the name
  -- of an advert is well-formed UTF-8 without a zero byte.
  pub decode-Decoded :
      (raw : RawEvent) (e : Event F) → decode lib ops mc raw ≡ some e → Decoded raw e
  unfolding decode
  decode-Decoded raw e h = elim (Option-cases (parse_topic_hash (text "meshcore/") raw.topic)) [
    | inl n ↦ absurd (ground (arith, n, h))
    | inr (t, q) ↦ elim (Option-cases (payload_of lib ops mc t.kind raw)) [
      | inl n ↦ absurd (ground (arith, q, n, h))
      | inr (p, f) ↦
          let w : some (record {
            raw_id = raw.id;
            ts = raw.received_at;
            observer_id = t.id;
            topic = raw.topic;
            region = t.region;
            payload = p;
          })
              ≡ some e =
            ground (arith, q, f, h) in
          decoded t p q f (ground (arith, w))
    ]
  ]
    where
      decoded :
          (t : TopicParts) (p : Payload F)
          → parse_topic_hash (text "meshcore/") raw.topic ≡ some t
          → payload_of lib ops mc t.kind raw ≡ some p
          → record {
            raw_id = raw.id;
            ts = raw.received_at;
            observer_id = t.id;
            topic = raw.topic;
            region = t.region;
            payload = p;
          }
            ≡ e
          → Decoded raw e
      decoded t p q f w = record {
        parts = t;
        accepted = parse_topic_hash-Accepted (text "meshcore/") raw.topic t q;
        same_id = sym (ap (λ (x : Event F). x.raw_id) w);
        same_time = sym (ap (λ (x : Event F). x.ts) w);
        same_topic = sym (ap (λ (x : Event F). x.topic) w);
        observer = sym (ap (λ (x : Event F). x.observer_id) w);
        region = sym (ap (λ (x : Event F). x.region) w);
        payload_ok =
            subst PayloadOk (ap (λ (x : Event F). x.payload) w)
              (subst (IfAny PayloadOk) f (payload_of-PayloadOk t.kind raw));
      }
