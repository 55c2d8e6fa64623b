-- ===== src/Decoder/Utf8.antt =====
-- What internal/meshcore/decode.go uses of strings.ToValidUTF8 and strings.ReplaceAll for the name
-- of an advert, and that the text is one that a Postgres text column accepts.
use mesh_bug.Prelude.{
  ℕ, zero, suc, ◌==◌, ◌<◌, leb, Bool, true, false, ◌&&◌, Option, none, some, List, [], ◌∷◌, ◌++◌,
  Bytes, length, if◌then◌else◌, select, not, ◌≡◌, refl, ap, ◌∙◌, arith, Option-cases, Bool-cases,
  inl, inr,
}

abbrev Range : Type 0
Range = ℕ × ℕ

abbrev inside : Range → ℕ → Bool
inside (lo, hi) b = leb lo b && leb b hi

-- The ranges of the bytes that follow a first byte of a rune.
unfoldable follow : ℕ → Option (List Range)
follow b =
    if leb b 0x7f
    then some []
    else if inside (0xc2, 0xdf) b
    then some ((0x80, 0xbf) ∷ [])
    else if b == 0xe0
    then some ((0xa0, 0xbf) ∷ (0x80, 0xbf) ∷ [])
    else if b == 0xed
    then some ((0x80, 0x9f) ∷ (0x80, 0xbf) ∷ [])
    else if inside (0xe1, 0xef) b
    then some ((0x80, 0xbf) ∷ (0x80, 0xbf) ∷ [])
    else if b == 0xf0
    then some ((0x90, 0xbf) ∷ (0x80, 0xbf) ∷ (0x80, 0xbf) ∷ [])
    else if inside (0xf1, 0xf3) b
    then some ((0x80, 0xbf) ∷ (0x80, 0xbf) ∷ (0x80, 0xbf) ∷ [])
    else if b == 0xf4
    then some ((0x80, 0x8f) ∷ (0x80, 0xbf) ∷ (0x80, 0xbf) ∷ [])
    else none

unfoldable starts : List Range → Bytes → Bool
starts [] s = true
starts (r ∷ rs) [] = false
starts (r ∷ rs) (b ∷ s) = inside r b && starts rs s

-- U+FFFD
abbrev pub replacement : Bytes
replacement = 0xef ∷ 0xbf ∷ 0xbd ∷ []

-- strings.ToValidUTF8: `k` bytes of a rune are still to be copied; `bad` says that the byte before
-- was replaced.
unfoldable pub to_valid : ℕ → Bool → Bytes → Bytes
unfolding follow starts
to_valid k bad [] = []
to_valid (suc k) bad (b ∷ s) = b ∷ to_valid k false s
to_valid zero bad (b ∷ s) = elim (follow b) [
  | none ↦ if bad then to_valid zero true s else replacement ++ to_valid zero true s
  | some rs ↦ elim (starts rs s) [
    | true ↦ b ∷ to_valid (length rs) false s
    | false ↦ if bad then to_valid zero true s else replacement ++ to_valid zero true s
  ]
]

-- strings.ReplaceAll(s, "\x00", "")
unfoldable pub without_nul : Bytes → Bytes
unfolding select
without_nul s = select (λ b. not (b == 0)) s

unfoldable pub clean_text : Bytes → Bytes
unfolding to_valid without_nul
clean_text s = without_nul (to_valid 0 false s)

-- A sequence of whole runes; `rs` are the ranges that the rune at the front still asks for.
unfoldable pub is_utf8 : List Range → Bytes → Bool
unfolding follow
is_utf8 [] [] = true
is_utf8 (r ∷ rs) [] = false
is_utf8 (r ∷ rs) (b ∷ s) = elim (inside r b) [ true ↦ is_utf8 rs s | false ↦ false ]
is_utf8 [] (b ∷ s) = elim (follow b) [ none ↦ false | some rs ↦ is_utf8 rs s ]

-- UTF-8 without a zero byte, which Postgres refuses in a text.
unfoldable pub no_nul : Bytes → Bool
no_nul [] = true
no_nul (b ∷ s) = elim (b == 0) [ true ↦ false | false ↦ no_nul s ]

abbrev High : List Range → Type 0
High [] = Unit
High ((lo, hi) ∷ rs) = (0 < lo) × High rs

High-follow : (b : ℕ) (rs : List Range) → follow b ≡ some rs → High rs
unfolding follow
High-follow b rs e = ground arith

replaced :
    (bad : Bool) (s : Bytes)
    → is_utf8 [] (to_valid zero true s) ≡ true
    → is_utf8 [] (if bad then to_valid zero true s else replacement ++ to_valid zero true s) ≡ true
unfolding is_utf8
replaced true s h = h
replaced false s h = h

is_utf8-to_valid :
    (rs : List Range) (bad : Bool) (s : Bytes)
    → starts rs s ≡ true
    → is_utf8 rs (to_valid (length rs) bad s) ≡ true
unfolding is_utf8 to_valid starts
is_utf8-to_valid [] bad [] h = refl
is_utf8-to_valid (r ∷ rs) bad [] h = absurd (ground arith)
is_utf8-to_valid (r ∷ rs) bad (b ∷ s) h = ground (arith, is_utf8-to_valid rs false s)
is_utf8-to_valid [] bad (b ∷ s) h =
    let rest = is_utf8-to_valid [] true s refl in
    elim (Option-cases (follow b)) [
      | inl e ↦ ground (arith, e, replaced bad s rest)
      | inr (rs, e) ↦ elim (Bool-cases (starts rs s)) [
        | inl f ↦ ground (arith, e, f, is_utf8-to_valid rs false s f)
        | inr f ↦ ground (arith, e, f, replaced bad s rest)
      ]
    ]

nothing : without_nul [] ≡ []
unfolding without_nul select
nothing = refl

dropped : (b : ℕ) (s : Bytes) → (b == 0) ≡ true → without_nul (b ∷ s) ≡ without_nul s
unfolding without_nul select
dropped b s h = ground (arith, h)

retained : (b : ℕ) (s : Bytes) → (b == 0) ≡ false → without_nul (b ∷ s) ≡ b ∷ without_nul s
unfolding without_nul select
retained b s h = ground (arith, h)

is_utf8_tail :
    (b : ℕ) (s : Bytes) → (b == 0) ≡ true → is_utf8 [] (b ∷ s) ≡ true → is_utf8 [] s ≡ true
unfolding is_utf8 follow
is_utf8_tail b s z u = ground (arith, z, u)

is_utf8-without_nul :
    (rs : List Range) (s : Bytes)
    → High rs
    → is_utf8 rs s ≡ true
    → is_utf8 rs (without_nul s) ≡ true
unfolding is_utf8
is_utf8-without_nul [] [] h u = ap (is_utf8 []) nothing
is_utf8-without_nul (r ∷ rs) [] h u = absurd (ground (arith, u))
is_utf8-without_nul ((lo, hi) ∷ rs) (b ∷ s) h u = elim (Bool-cases (inside (lo, hi) b)) [
  | inl i ↦
      let n : (b == 0) ≡ false = ground (arith, h.0, i) in
      let v : is_utf8 rs s ≡ true = ground (arith, i, u) in
      let w = is_utf8-without_nul rs s h.1 v in
      ap (is_utf8 ((lo, hi) ∷ rs)) (retained b s n) ∙ ground (arith, i, w)
  | inr i ↦ absurd (ground (arith, i, u))
]
is_utf8-without_nul [] (b ∷ s) h u = elim (Bool-cases (b == 0)) [
  | inl z ↦ ap (is_utf8 []) (dropped b s z) ∙ is_utf8-without_nul [] s tt (is_utf8_tail b s z u)
  | inr n ↦ elim (Option-cases (follow b)) [
    | inl e ↦ absurd (ground (arith, e, u))
    | inr (rs, e) ↦
        let v : is_utf8 rs s ≡ true = ground (arith, e, u) in
        let w = is_utf8-without_nul rs s (High-follow b rs e) v in
        ap (is_utf8 []) (retained b s n) ∙ ground (arith, e, w)
  ]
]

no_nul-without_nul : (s : Bytes) → no_nul (without_nul s) ≡ true
unfolding no_nul without_nul select
no_nul-without_nul [] = refl
no_nul-without_nul (b ∷ s) = ground (arith, no_nul-without_nul s)

-- The name that the decoder keeps of an advert, whatever bytes arrive, is well-formed UTF-8 without
-- a zero byte.
pub clean_text-is_utf8 :
    (s : Bytes) → (is_utf8 [] (clean_text s) ≡ true) × (no_nul (clean_text s) ≡ true)
unfolding clean_text
clean_text-is_utf8 s = (
  is_utf8-without_nul [] (to_valid 0 false s) tt (is_utf8-to_valid [] false s refl),
  no_nul-without_nul (to_valid 0 false s),
)

to_valid-starts :
    (rs : List Range) (s : Bytes)
    → is_utf8 rs s ≡ true
    → (starts rs s ≡ true) × (to_valid (length rs) false s ≡ s)
unfolding is_utf8 to_valid starts
to_valid-starts [] [] u = (refl, refl)
to_valid-starts (r ∷ rs) [] u = absurd (ground (arith, u))
to_valid-starts (r ∷ rs) (b ∷ s) u = ground (arith, to_valid-starts rs s)
to_valid-starts [] (b ∷ s) u = elim (Option-cases (follow b)) [
  | inl e ↦ absurd (ground (arith, e, u))
  | inr (rs, e) ↦ (refl, ground (arith, e, u, to_valid-starts rs s))
]

select-no_nul : (s : Bytes) → no_nul s ≡ true → without_nul s ≡ s
unfolding no_nul without_nul select
select-no_nul [] h = refl
select-no_nul (b ∷ s) h = ground (arith, select-no_nul s)

-- A name that is well-formed UTF-8 without a zero byte is kept as it is.
pub clean_text-same : (s : Bytes) → is_utf8 [] s ≡ true → no_nul s ≡ true → clean_text s ≡ s
unfolding clean_text
clean_text-same s u n = ap without_nul (to_valid-starts [] s u).1 ∙ select-no_nul s n
