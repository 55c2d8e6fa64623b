-- ===== src/Decoder/Dropped.antt =====
-- The raw events that the decoder drops.
use mesh_bug.Prelude.{
  Option, none, some, Bytes, ◌>>=◌, text, bytes_discrete, if_pos, if_neg, ◌≡◌, ◌≢◌, ◌↔◌, refl, sym,
  ap, ◌∙◌, arith, Option-cases, inl, inr,
}
use mesh_bug.Event.{FloatOps, status, packet}
use mesh_bug.RawLog.{RawEvent}
use mesh_bug.Decoder.Topic.{TopicParts, parse_topic_hash}
use mesh_bug.Decoder.Messages.{Reader, unmarshal_status, unmarshal_packet}
use mesh_bug.Decoder.Frame.{Mesh}
use mesh_bug.Decoder.{decode_status, decode_packet, payload_of, decode}

-- Why a raw event is dropped.
pub data Dropped {F : Type 0} (lib : Reader F) (ops : FloatOps F) (raw : RawEvent) : Type 0 where
  bad_topic : parse_topic_hash (text "meshcore/") raw.topic ≡ none → Dropped lib ops raw
  other_kind :
      (t : TopicParts)
      → parse_topic_hash (text "meshcore/") raw.topic ≡ some t
      → t.kind ≢ text "status"
      → t.kind ≢ text "packets"
      → Dropped lib ops raw
  bad_status :
      (t : TopicParts)
      → parse_topic_hash (text "meshcore/") raw.topic ≡ some t
      → t.kind ≡ text "status"
      → unmarshal_status lib ops raw.payload ≡ none
      → Dropped lib ops raw
  bad_packet :
      (t : TopicParts)
      → parse_topic_hash (text "meshcore/") raw.topic ≡ some t
      → t.kind ≡ text "packets"
      → unmarshal_packet lib ops raw.payload ≡ none
      → Dropped lib ops raw

none-bind : {A B : Type 0} (o : Option A) (f : A → B) → (o >>= λ a. some (f a)) ≡ none → o ≡ none
none-bind none f e = refl
none-bind (some a) f e = cc

bind-none : {A B : Type 0} (o : Option A) (f : A → Option B) → o ≡ none → (o >>= f) ≡ none
bind-none none f e = refl
bind-none (some a) f e = cc

status≢packets : text "status" ≢ text "packets"
status≢packets e = cc

module _ {F P A : Type 0} (lib : Reader F) (ops : FloatOps F) (mc : Mesh P A) (raw : RawEvent) where
  decode_status-none :
      decode_status lib ops mc raw ≡ none → unmarshal_status lib ops raw.payload ≡ none
  unfolding decode_status
  decode_status-none e = none-bind (unmarshal_status lib ops raw.payload) _ e

  decode_packet-none :
      decode_packet lib ops mc raw ≡ none → unmarshal_packet lib ops raw.payload ≡ none
  unfolding decode_packet
  decode_packet-none e = none-bind (unmarshal_packet lib ops raw.payload) _ e

  none-decode_status :
      unmarshal_status lib ops raw.payload ≡ none → decode_status lib ops mc raw ≡ none
  unfolding decode_status
  none-decode_status e = bind-none _ _ e

  none-decode_packet :
      unmarshal_packet lib ops raw.payload ≡ none → decode_packet lib ops mc raw ≡ none
  unfolding decode_packet
  none-decode_packet e = bind-none _ _ e

  payload_of-status :
      (kind : Bytes)
      → kind ≡ text "status"
      → payload_of lib ops mc kind raw ≡ (do p ← decode_status lib ops mc raw; some (status p))
  payload_of-status kind k = if_pos (bytes_discrete kind (text "status")) k _ _

  payload_of-packet :
      (kind : Bytes)
      → kind ≢ text "status"
      → kind ≡ text "packets"
      → payload_of lib ops mc kind raw ≡ (do p ← decode_packet lib ops mc raw; some (packet p))
  payload_of-packet kind n k =
      if_neg (bytes_discrete kind (text "status")) n _ _
      ∙ if_pos (bytes_discrete kind (text "packets")) k _ _

  payload_of-other :
      (kind : Bytes)
      → kind ≢ text "status"
      → kind ≢ text "packets"
      → payload_of lib ops mc kind raw ≡ none
  payload_of-other kind n m =
      if_neg (bytes_discrete kind (text "status")) n _ _
      ∙ if_neg (bytes_discrete kind (text "packets")) m _ _

  payload-Dropped :
      (t : TopicParts)
      → parse_topic_hash (text "meshcore/") raw.topic ≡ some t
      → payload_of lib ops mc t.kind raw ≡ none
      → Dropped lib ops raw
  payload-Dropped t q e = elim (bytes_discrete t.kind (text "status")) [
    | yes k ↦ bad_status t q k (
        decode_status-none
          (none-bind (decode_status lib ops mc raw) status (sym (payload_of-status t.kind k) ∙ e)))
    | no n ↦ elim (bytes_discrete t.kind (text "packets")) [
      | yes k ↦ bad_packet t q k (
          decode_packet-none (
            none-bind (decode_packet lib ops mc raw) packet
              (sym (payload_of-packet t.kind n k) ∙ e)))
      | no m ↦ other_kind t q n m
    ]
  ]

  decode-topic :
      (t : TopicParts)
      → parse_topic_hash (text "meshcore/") raw.topic ≡ some t
      → payload_of lib ops mc t.kind raw ≡ none
      → decode lib ops mc raw ≡ none
  unfolding decode
  decode-topic t q e = ground (arith, q, e)

  decode-payload :
      (t : TopicParts)
      → parse_topic_hash (text "meshcore/") raw.topic ≡ some t
      → decode lib ops mc raw ≡ none
      → payload_of lib ops mc t.kind raw ≡ none
  unfolding decode
  decode-payload t q e = elim (Option-cases (payload_of lib ops mc t.kind raw)) [
    | inl n ↦ n
    | inr (p, f) ↦ absurd (ground (arith, q, f, e))
  ]

  decode-bad_topic :
      parse_topic_hash (text "meshcore/") raw.topic ≡ none → decode lib ops mc raw ≡ none
  unfolding decode
  decode-bad_topic q = ground (arith, q)

  Dropped-none : Dropped lib ops raw → decode lib ops mc raw ≡ none
  Dropped-none (bad_topic q) = decode-bad_topic q
  Dropped-none (other_kind t q n m) = decode-topic t q (payload_of-other t.kind n m)
  Dropped-none (bad_status t q k e) =
      decode-topic t q
        (payload_of-status t.kind k ∙ ap (λ o. o >>= λ p. some (status p)) (none-decode_status e))
  Dropped-none (bad_packet t q k e) = decode-topic t q (
      payload_of-packet t.kind (λ s. status≢packets (sym s ∙ k)) k
      ∙ ap (λ o. o >>= λ p. some (packet p)) (none-decode_packet e))

  none-Dropped : decode lib ops mc raw ≡ none → Dropped lib ops raw
  none-Dropped e = elim (Option-cases (parse_topic_hash (text "meshcore/") raw.topic)) [
    | inl q ↦ bad_topic q
    | inr (t, q) ↦ payload-Dropped t q (decode-payload t q e)
  ]

  -- A raw event is dropped exactly if its topic cannot be read, its kind is neither `status` nor
  -- `packets`, or the JSON of its kind cannot be read: a packet whose frame is missing, is no
  -- hexadecimal text or cannot be parsed is never dropped.
  pub decode-none : (decode lib ops mc raw ≡ none) ↔ Dropped lib ops raw
  decode-none = (none-Dropped, Dropped-none)
