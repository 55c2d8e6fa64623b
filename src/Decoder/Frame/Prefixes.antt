-- ===== src/Decoder/Frame/Prefixes.antt =====
-- What the decoder reads of a frame, when the byte slices that meshcore-go returns hold bytes.
use mesh_bug.Prelude.{◌≤◌, ◌≡◌, refl, true, Option, none, some, List, [], ◌∷◌, Bytes, length, arith}
use mesh_bug.Event.{AdvertInfo}
use mesh_bug.Decoder.Hex.{IsBytes}
use mesh_bug.Decoder.Utf8.{is_utf8, no_nul, clean_text-is_utf8}
use mesh_bug.Decoder.Frame.{
  Mesh, copy_of, last_of, payload_dst_hash, payload_src_hash, neighbor_source, advert_of,
  decode_advert,
}

-- A property of the value that may be missing.
abbrev pub IfAny : {A : Type 0} → (A → Type 0) → Option A → Type 0
IfAny P none = Unit
IfAny P (some a) = P a

abbrev pub AllBytes : List Bytes → Type 0
AllBytes [] = Unit
AllBytes (s ∷ ss) = IsBytes s × AllBytes ss

-- The library's results of type []byte.
pub record MeshBytes {P A : Type 0} (mc : Mesh P A) : Type 0 where
  pub payload : (p : P) → IsBytes (mc.payload p)
  pub path_hashes : (p : P) → AllBytes (mc.path_hashes p)
  pub public_key : (a : A) → IsBytes (mc.public_key_bytes a)

abbrev pub IsOneByte : Bytes → Type 0
IsOneByte s = (length s ≡ 1) × IsBytes s

abbrev pub IsPrefix : Bytes → Type 0
IsPrefix s = (1 ≤ length s) × IsBytes s

pub record AdvertOk (a : AdvertInfo) : Type 0 where
  pub key_bytes : IsBytes a.public_key
  pub name_utf8 : is_utf8 [] a.name ≡ true
  pub name_no_nul : no_nul a.name ≡ true

copy_of-IsPrefix : (s : Bytes) → IsBytes s → IfAny IsPrefix (copy_of s)
copy_of-IsPrefix [] h = tt
copy_of-IsPrefix (b ∷ bs) h = (omega arith, h)

last_of-IsBytes : (s : Bytes) (ss : List Bytes) → AllBytes (s ∷ ss) → IsBytes (last_of s ss)
last_of-IsBytes s [] h = h.0
last_of-IsBytes s (t ∷ ts) h = last_of-IsBytes t ts h.1

module _ {P A : Type 0} (mc : Mesh P A) (given : MeshBytes mc) where
  pub payload_dst_hash-IsOneByte : (pkt : P) → IfAny IsOneByte (payload_dst_hash mc pkt)
  unfolding payload_dst_hash
  payload_dst_hash-IsOneByte pkt = by_payload (mc.payload pkt) refl (given.payload pkt)
    where
      by_payload :
          (s : Bytes)
          → mc.payload pkt ≡ s
          → IsBytes (mc.payload pkt)
          → IfAny IsOneByte (payload_dst_hash mc pkt)
      by_payload [] e b = ground (arith, e, b)
      by_payload (x ∷ []) e b = ground (arith, e, b)
      by_payload (x ∷ y ∷ s) e b = ground (arith, e, b)

  payload_src_hash-IsPrefix : (pkt : P) → IfAny IsPrefix (payload_src_hash mc pkt)
  unfolding payload_src_hash
  payload_src_hash-IsPrefix pkt = by_payload (mc.payload pkt) refl (given.payload pkt)
    where
      by_payload :
          (s : Bytes)
          → mc.payload pkt ≡ s
          → IsBytes (mc.payload pkt)
          → IfAny IsPrefix (payload_src_hash mc pkt)
      by_payload [] e b = ground (arith, e, b)
      by_payload (x ∷ []) e b = ground (arith, e, b)
      by_payload (x ∷ y ∷ []) e b = ground (arith, e, b)
      by_payload (x ∷ y ∷ z ∷ []) e b = ground (arith, e, b)
      by_payload (x ∷ y ∷ z ∷ w ∷ s) e b = ground (arith, e, b)

  pub neighbor_source-IsPrefix : (pkt : P) → IfAny IsPrefix (neighbor_source mc pkt)
  unfolding neighbor_source
  neighbor_source-IsPrefix pkt = by_path (mc.path_hashes pkt) (given.path_hashes pkt)
    where
      by_path :
          (hs : List Bytes)
          → AllBytes hs
          → IfAny IsPrefix
              (elim hs [ [] ↦ payload_src_hash mc pkt | h ∷ hs ↦ copy_of (last_of h hs) ])
      by_path [] b = payload_src_hash-IsPrefix pkt
      by_path (h ∷ hs) b = copy_of-IsPrefix (last_of h hs) (last_of-IsBytes h hs b)

  pub decode_advert-AdvertOk : (s : Bytes) → IfAny AdvertOk (decode_advert mc s)
  unfolding decode_advert
  decode_advert-AdvertOk s = by_advert (mc.advert_from_bytes s)
    where
      by_advert :
          (o : Option A) → IfAny AdvertOk (elim o [ none ↦ none | some a ↦ some (advert_of mc a) ])
      by_advert none = tt
      by_advert (some a) =
          let (u, n) = clean_text-is_utf8 (mc.app_name a) in
          record { key_bytes = given.public_key a; name_utf8 = u; name_no_nul = n }
