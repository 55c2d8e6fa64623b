-- ===== src/Notify.antt =====
-- What the stages hand to pg_notify (internal/notify/notify.go, `Publish`): the channel and the
-- fields of the JSON payload. Delivery is best effort and its errors are dropped by the stages.
pub mod Listen
use mesh_bug.Prelude.{ℕ, ◌+◌, ◌/◌, ◌%◌, List, [], ◌∷◌, Bytes, ltb, if◌then◌else◌, text, ◌≡◌, refl}

pub data Message : Type 0 where
  packets : ℕ → List Bytes → Message
  status : Bytes → Message
  anomaly : ℕ → Bytes → Bytes → Message

-- encoding/hex: EncodeToString
abbrev pub hex_digit : ℕ → ℕ
hex_digit d = if ltb d 10 then b'0' + d else 87 + d

unfoldable pub hex_encode : Bytes → Bytes
hex_encode [] = []
hex_encode (b ∷ bs) = hex_digit (b / 16) ∷ hex_digit (b % 16) ∷ hex_encode bs

hex_encode_runs : hex_encode (0xf0 ∷ 0x92 ∷ []) ≡ text "f092"
unfolding hex_encode
hex_encode_runs = refl
