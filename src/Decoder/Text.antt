-- ===== src/Decoder/Text.antt =====
-- What internal/project/parse.go and decoder.go use of Go's strings, strconv and encoding/hex, on
-- the bytes of a string.
use mathlib.Core.List.{reverse}
use mesh_bug.Prelude.{
  ℕ, zero, suc, ◌+◌, ◌-◌, ◌*◌, ◌^◌, ◌==◌, ltb, leb, Bool, true, false, ◌&&◌, ◌||◌, Option, none,
  some, List, [], ◌∷◌, Bytes, if◌then◌else◌, text, is_nil, ◌≡◌, refl,
}
use mesh_bug.Prelude.Ints.{ℤ, pos, negsuc}

-- unicode.IsSpace on the one, two and three bytes of a rune
abbrev pub space1 : ℕ → Bool
space1 a = a == 0x20 || (leb 0x09 a && leb a 0x0d)

abbrev pub space2 : ℕ → ℕ → Bool
space2 a b = a == 0xc2 && (b == 0x85 || b == 0xa0)

abbrev pub space3 : ℕ → ℕ → ℕ → Bool
space3 a b c =
    (a == 0xe1 && b == 0x9a && c == 0x80)
    || (a == 0xe2 && b == 0x80 && (leb 0x80 c && leb c 0x8a || c == 0xa8 || c == 0xa9 || c == 0xaf))
    || (a == 0xe2 && b == 0x81 && c == 0x9f)
    || (a == 0xe3 && b == 0x80 && c == 0x80)

-- Drops the runes at the front whose bytes pass the tests.
unfoldable pub trim_front : (ℕ → ℕ → Bool) → (ℕ → ℕ → ℕ → Bool) → Bytes → Bytes
trim_front two three [] = []
trim_front two three (a ∷ []) = elim (space1 a) [ true ↦ [] | false ↦ a ∷ [] ]
trim_front two three (a ∷ b ∷ []) = elim (space1 a) [
  | true ↦ trim_front two three (b ∷ [])
  | false ↦ elim (two a b) [ true ↦ [] | false ↦ a ∷ b ∷ [] ]
]
trim_front two three (a ∷ b ∷ c ∷ s) = elim (space1 a) [
  | true ↦ trim_front two three (b ∷ c ∷ s)
  | false ↦ elim (two a b) [
    | true ↦ trim_front two three (c ∷ s)
    | false ↦ elim (three a b c) [ true ↦ trim_front two three s | false ↦ a ∷ b ∷ c ∷ s ]
  ]
]

-- strings.TrimSpace
unfoldable pub trim_space : Bytes → Bytes
unfolding trim_front reverse
trim_space s =
    reverse (
      trim_front (λ b a. space2 a b) (λ c b a. space3 a b c) (reverse (trim_front space2 space3 s)))

-- strings.TrimPrefix
unfoldable pub strip : Bytes → Bytes → Option Bytes
strip [] s = some s
strip (p ∷ ps) [] = none
strip (p ∷ ps) (c ∷ s) = elim (p == c) [ true ↦ strip ps s | false ↦ none ]

unfoldable pub trim_prefix : Bytes → Bytes → Bytes
unfolding strip
trim_prefix p s = elim (strip p s) [ none ↦ s | some rest ↦ rest ]

-- A character in front of the first segment.
abbrev pub onto : ℕ → List Bytes → List Bytes
onto c [] = (c ∷ []) ∷ []
onto c (p ∷ ps) = (c ∷ p) ∷ ps

-- strings.Split for a separator of one byte
unfoldable pub split : ℕ → Bytes → List Bytes
split sep [] = [] ∷ []
split sep (c ∷ s) = elim (c == sep) [ true ↦ [] ∷ split sep s | false ↦ onto c (split sep s) ]

-- The value of a hexadecimal digit.
unfoldable pub hex_value : ℕ → Option ℕ
hex_value c =
    if leb b'0' c && leb c b'9'
    then some (c - b'0')
    else if leb b'a' c && leb c b'f'
    then some (c - b'a' + 10)
    else if leb b'A' c && leb c b'F'
    then some (c - b'A' + 10)
    else none

abbrev pub hex_pair : Option ℕ → Option ℕ → Option ℕ
hex_pair (some h) (some l) = some (16 * h + l)
hex_pair _ _ = none

-- hex.DecodeString: the bytes before the first pair that is no byte, and whether there is no error
unfoldable pub hex_decode : Bytes → Bytes × Bool
unfolding hex_value
hex_decode [] = ([], true)
hex_decode (c ∷ []) = ([], false)
hex_decode (h ∷ l ∷ s) = elim (hex_pair (hex_value h) (hex_value l)) [
  | none ↦ ([], false)
  | some b ↦ let (bs, fine) = hex_decode s in (b ∷ bs, fine)
]

unfoldable pub digits : ℕ → Bytes → Option ℕ
digits n [] = some n
digits n (c ∷ s) = elim (leb b'0' c && leb c b'9') [
  | true ↦ digits (10 * n + (c - b'0')) s
  | false ↦ none
]

-- digits, at least one
abbrev pub unsigned : Bytes → Option ℕ
unsigned s = if is_nil s then none else digits 0 s

abbrev pub int64_of : Bool → Option ℕ → Option ℤ
int64_of minus none = none
int64_of false (some n) = if ltb n (2 ^ 63) then some (pos n) else none
int64_of true (some zero) = some (pos 0)
int64_of true (some (suc n)) = if ltb n (2 ^ 63) then some (negsuc n) else none

-- strconv.ParseInt(s, 10, 64) and strconv.Atoi
unfoldable pub parse_int : Bytes → Option ℤ
unfolding digits
parse_int [] = none
parse_int (c ∷ s) =
    if c == b'-'
    then int64_of true (unsigned s)
    else if c == b'+'
    then int64_of false (unsigned s)
    else int64_of false (unsigned (c ∷ s))

trim_space_runs : trim_space (text "\t 12 \n") ≡ text "12"
unfolding trim_space
trim_space_runs = refl

split_runs : split b'/' (text "BUF//x") ≡ text "BUF" ∷ [] ∷ text "x" ∷ []
unfolding split
split_runs = refl

hex_decode_stops : hex_decode (text "F0zz12") ≡ (0xf0 ∷ [], false)
unfolding hex_decode
hex_decode_stops = refl

parse_int_runs : parse_int (text "-9223372036854775808") ≡ some (negsuc (2 ^ 63 - 1))
unfolding parse_int
parse_int_runs = refl

parse_int_overflows : parse_int (text "9223372036854775808") ≡ none
unfolding parse_int
parse_int_overflows = refl
