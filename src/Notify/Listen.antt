-- ===== src/Notify/Listen.antt =====
-- The listener of internal/notify/notify.go: the name in its LISTEN statement, the pauses between
-- its connections, and the size of what `Publish` sends.
use mesh_bug.Prelude.{
  ℕ, zero, suc, ◌*◌, ◌^◌, ◌≡◌, refl, ap, ◌∙◌, ltb, leb, ◌==◌, Bool, true, false, ◌&&◌, ◌||◌, Option,
  none, some, [], ◌∷◌, ◌++◌, Bytes, min, if◌then◌else◌, arith,
}
use mesh_bug.Event.{second}

-- a-z, A-Z, 0-9 and _
abbrev pub is_identifier : ℕ → Bool
is_identifier c =
    (leb b'a' c && leb c b'z')
    || (leb b'A' c && leb c b'Z')
    || (leb b'0' c && leb c b'9')
    || c == b'_'

unfoldable pub sanitize : Bytes → Bytes
sanitize [] = []
sanitize (c ∷ s) = elim (is_identifier c) [ true ↦ c ∷ sanitize s | false ↦ sanitize s ]

-- The argument of LISTEN.
abbrev pub quoted : Bytes → Bytes
quoted s = b'"' ∷ (sanitize s ++ b'"' ∷ [])

-- The end of a quoted identifier: what stands up to the next quote, and what follows it.
unfoldable pub read_quoted : Bytes → Option (Bytes × Bytes)
read_quoted [] = none
read_quoted (c ∷ s) = elim (c == b'"') [
  | true ↦ some ([], s)
  | false ↦ elim (read_quoted s) [ none ↦ none | some (name, rest) ↦ some (c ∷ name, rest) ]
]

abbrev pub AllIdentifier : Bytes → Type 0
AllIdentifier [] = Unit
AllIdentifier (c ∷ s) = (is_identifier c ≡ true) × AllIdentifier s

abbrev pub longest : ℕ
longest = 30 * second

-- The change of `backoff` after a pause.
unfoldable pub next_backoff : ℕ → ℕ
next_backoff b = if ltb longest (b * 2) then longest else b * 2

-- The pause after the `n`th lost connection, from 0, in the loop of `Listen`.
unfoldable pub backoff : ℕ → ℕ
unfolding next_backoff
backoff zero = second
backoff (suc n) = next_backoff (backoff n)

next_backoff-min : (x : ℕ) → next_backoff (min x longest) ≡ min (x * 2) longest
unfolding next_backoff
next_backoff-min x = ground arith

-- The pauses double from one second until they are 30 seconds and stay there.
pub backoff-min : (n : ℕ) → backoff n ≡ min (2 ^ n * second) longest
unfolding backoff
backoff-min zero = refl
backoff-min (suc n) =
    ap next_backoff (backoff-min n) ∙ next_backoff-min (2 ^ n * second) ∙ omega arith
