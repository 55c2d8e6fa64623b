-- ===== src/Decoder/Hex.antt =====
-- Hexadecimal text: the decoder of Decoder/Text and the encoder of Notify.
use mesh_bug.Prelude.{
  ℕ, ◌/◌, ◌%◌, ◌<◌, true, some, [], ◌∷◌, Bytes, ◌≡◌, refl, arith, Option-cases, inl, inr,
}
use mesh_bug.Notify.{hex_digit, hex_encode}
use mesh_bug.Decoder.Text.{hex_value, hex_decode}

abbrev pub IsBytes : Bytes → Type 0
IsBytes [] = Unit
IsBytes (b ∷ bs) = (b < 256) × IsBytes bs

hex_value-hex_digit : (d : ℕ) → d < 16 → hex_value (hex_digit d) ≡ some d
unfolding hex_value
hex_value-hex_digit d h = ground (arith, h)

hex_value_lem : (c d : ℕ) → hex_value c ≡ some d → d < 16
unfolding hex_value
hex_value_lem c d e = ground arith

-- Decoding the text of `hex.EncodeToString` gives its bytes back, without an error.
pub hex_decode-hex_encode : (bs : Bytes) → IsBytes bs → hex_decode (hex_encode bs) ≡ (bs, true)
unfolding hex_decode hex_encode
hex_decode-hex_encode [] h = refl
hex_decode-hex_encode (b ∷ bs) h = ground (
  arith,
  hex_decode-hex_encode bs h.1,
  hex_value-hex_digit (b / 16) (omega (arith, h.0)),
  hex_value-hex_digit (b % 16) (omega arith),
)

pub hex_decode-IsBytes : (s : Bytes) → IsBytes (hex_decode s).0
unfolding hex_decode
hex_decode-IsBytes [] = tt
hex_decode-IsBytes (c ∷ []) = tt
hex_decode-IsBytes (h ∷ l ∷ s) = elim (Option-cases (hex_value h)) [
  | inl e ↦ ground (arith, e)
  | inr (a, e) ↦ elim (Option-cases (hex_value l)) [
    | inl f ↦ ground (arith, e, f)
    | inr (b, f) ↦
        ground (arith, e, f, hex_decode-IsBytes s, hex_value_lem h a e, hex_value_lem l b f)
  ]
]
