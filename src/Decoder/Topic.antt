-- ===== src/Decoder/Topic.antt =====
-- The MQTT topic of an event: `parseTopicHash` of internal/project/parse.go.
pub mod RoundTrip
pub mod Accepted
use mesh_bug.Prelude.{
  ℕ, ◌==◌, Bool, Option, none, some, List, [], ◌∷◌, Bytes, if◌then◌else◌, length, text, ◌≡◌, refl,
}
use mesh_bug.Decoder.Text.{trim_prefix, split, hex_decode}

pub record TopicParts : Type 0 where
  pub id : Bytes
  pub region : Bytes
  pub kind : Bytes

-- parts[len(parts)-1]
abbrev pub last : Bytes → List Bytes → Bytes
last p [] = p
last p (q ∷ ps) = last q ps

abbrev pub topic_of : Bytes × Bool → Bytes → Bytes → Option TopicParts
topic_of (id, fine) region kind =
    if fine
    then (if length id == 32 then some (record { id = id; region = region; kind = kind }) else none)
    else none

abbrev pub topic_parts : List Bytes → Option TopicParts
topic_parts (region ∷ hash ∷ p ∷ ps) = topic_of (hex_decode hash) region (last p ps)
topic_parts _ = none

unfoldable pub parse_topic_hash : Bytes → Bytes → Option TopicParts
unfolding trim_prefix split hex_decode
parse_topic_hash prefix topic = topic_parts (split b'/' (trim_prefix prefix topic))
