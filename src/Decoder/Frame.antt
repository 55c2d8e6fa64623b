-- ===== src/Decoder/Frame.antt =====
-- What the decoder reads of a MeshCore frame: internal/meshcore/decode.go. The library
-- meshcore-go, which parses frames and adverts, is the parameter `Mesh`.
pub mod Prefixes
use mesh_bug.Prelude.{
  ℕ, zero, suc, ◌+◌, ◌*◌, ◌/◌, ◌%◌, ◌==◌, ◌||◌, not, Bool, Option, none, some, List, [], ◌∷◌, Bytes,
  Slice, if◌then◌else◌,
}
use mesh_bug.Prelude.Ints.{ℤ, pos}
use mesh_bug.Event.{AdvertInfo, second}
use mesh_bug.Decoder.Utf8.{clean_text}

-- `P` and `A` are the library's Packet and Advert; none is an error.
pub record Mesh (P A : Type 0) : Type 0 where
  pub packet_from_bytes : Bytes → Option P
  pub payload_ver : P → ℕ
  pub payload_type : P → ℕ
  pub payload : P → Bytes
  pub path_hashes : P → List Bytes
  pub is_transport : P → Bool
  pub transport_code1 : P → ℕ
  pub transport_code2 : P → ℕ
  pub route_type_string : P → Bytes
  pub payload_type_string : P → Bytes
  pub type_req : ℕ
  pub type_response : ℕ
  pub type_txt_msg : ℕ
  pub type_path : ℕ
  pub type_grp_txt : ℕ
  pub type_grp_data : ℕ
  pub type_anon_req : ℕ
  pub type_advert : ℕ
  pub advert_from_bytes : Bytes → Option A
  pub public_key_bytes : A → Bytes
  pub timestamp : A → ℕ
  pub flags : A → ℕ
  pub app_type : A → Bytes
  pub app_name : A → Bytes
  pub app_lat : A → ℤ
  pub app_lon : A → ℤ
  pub app_feat1 : A → ℕ
  pub app_feat2 : A → ℕ
  pub lat_lon_mask : ℕ
  pub feat1_mask : ℕ
  pub feat2_mask : ℕ

pub data Parsed (P : Type 0) : Type 0 where
  packet : P → Parsed P
  short : Parsed P
  do_not_retransmit : Parsed P
  malformed : Parsed P

-- the bitwise and of two numbers of `n` bits
unfoldable pub and_bits : ℕ → ℕ → ℕ → ℕ
and_bits zero a b = 0
and_bits (suc n) a b = (a % 2) * (b % 2) + 2 * and_bits n (a / 2) (b / 2)

-- time.Unix(0, 0), in seconds since the zero time
abbrev unix_epoch : ℕ
unix_epoch = 62_135_596_800

-- append([]byte(nil), b...)
abbrev pub copy_of : Bytes → Slice
copy_of [] = none
copy_of (b ∷ bs) = some (b ∷ bs)

abbrev pub last_of : Bytes → List Bytes → Bytes
last_of h [] = h
last_of h (g ∷ hs) = last_of g hs

module _ {P A : Type 0} (mc : Mesh P A) where
  unfoldable pub parse : Bytes → Parsed P
  parse [] = short
  parse (b ∷ raw) =
      if b == 0xff
      then do_not_retransmit
      else elim (mc.packet_from_bytes (b ∷ raw)) [ none ↦ malformed | some p ↦ packet p ]

  abbrev is_addressed : ℕ → Bool
  is_addressed t =
      t == mc.type_req || t == mc.type_response || t == mc.type_txt_msg || t == mc.type_path

  abbrev is_group : ℕ → Bool
  is_group t = t == mc.type_grp_txt || t == mc.type_grp_data || t == mc.type_anon_req

  -- payload[0], if the payload has two bytes
  abbrev first_of_two : Bytes → Slice
  first_of_two (a ∷ b ∷ s) = some (a ∷ [])
  first_of_two _ = none

  abbrev second_of_two : Bytes → Slice
  second_of_two (a ∷ b ∷ s) = some (b ∷ [])
  second_of_two _ = none

  abbrev first_of_one : Bytes → Slice
  first_of_one (a ∷ s) = some (a ∷ [])
  first_of_one [] = none

  abbrev first_four : Bytes → Slice
  first_four (a ∷ b ∷ c ∷ d ∷ s) = some (a ∷ b ∷ c ∷ d ∷ [])
  first_four _ = none

  unfoldable pub payload_dst_hash : P → Slice
  payload_dst_hash p =
      if not (mc.payload_ver p == 0)
      then none
      else if is_addressed (mc.payload_type p)
      then first_of_two (mc.payload p)
      else if is_group (mc.payload_type p)
      then first_of_one (mc.payload p)
      else none

  unfoldable pub payload_src_hash : P → Slice
  payload_src_hash p =
      if not (mc.payload_ver p == 0)
      then none
      else if is_addressed (mc.payload_type p)
      then second_of_two (mc.payload p)
      else if mc.payload_type p == mc.type_advert
      then first_four (mc.payload p)
      else none

  unfoldable pub neighbor_source : P → Slice
  unfolding payload_src_hash
  neighbor_source p = elim (mc.path_hashes p) [
    | [] ↦ payload_src_hash p
    | h ∷ hs ↦ copy_of (last_of h hs)
  ]

  -- flags & mask != 0
  abbrev has_flag : A → ℕ → Bool
  has_flag a mask = not (and_bits 8 (mc.flags a) mask == 0)

  abbrev pub advert_of : A → AdvertInfo
  advert_of a = record {
    public_key = mc.public_key_bytes a;
    timestamp = (unix_epoch + mc.timestamp a) * second;
    node_type = mc.app_type a;
    name = clean_text (mc.app_name a);
    has_lat_lon = has_flag a mc.lat_lon_mask;
    lat_e6 = if has_flag a mc.lat_lon_mask then mc.app_lat a else pos 0;
    lon_e6 = if has_flag a mc.lat_lon_mask then mc.app_lon a else pos 0;
    has_feat1 = has_flag a mc.feat1_mask;
    feat1 = if has_flag a mc.feat1_mask then mc.app_feat1 a else 0;
    has_feat2 = has_flag a mc.feat2_mask;
    feat2 = if has_flag a mc.feat2_mask then mc.app_feat2 a else 0;
  }

  -- DecodeAdvert, and its copy into an AdvertInfo
  unfoldable pub decode_advert : Bytes → Option AdvertInfo
  unfolding and_bits clean_text
  decode_advert payload = elim (mc.advert_from_bytes payload) [
    | none ↦ none
    | some a ↦ some (advert_of a)
  ]
