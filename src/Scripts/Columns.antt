-- ===== src/Scripts/Columns.antt =====
-- Reading the hexdump of scripts/dec.py back.
use cam_reverse_py.Base.{
  ℕ, zero, suc, ◌+◌, ◌-◌, ◌*◌, ◌/◌, ◌%◌, ◌<◌, ◌≡◌, refl, ap₂, [], ◌∷◌, ◌++◌, Text, ltb, length,
  if◌then◌else◌, arith,
}
use cam_reverse_py.DataView.{Bytes}
use cam_reverse_py.DataView.Words.{IsBytes}
use cam_reverse_py.Scripts.Hexdump.{hex_digit, hex_columns}

abbrev digit_value : ℕ → ℕ
digit_value c = if ltb c 58 then c - 48 else c - 87

digit_value-hex_digit : (d : ℕ) → d < 16 → digit_value (hex_digit d) ≡ d
digit_value-hex_digit d h = ground (arith, h)

-- The bytes of so many columns.
abbrev read_columns : ℕ → Text → Bytes
read_columns zero text = []
read_columns (suc n) (a ∷ b ∷ s ∷ text) = (digit_value a * 16 + digit_value b) ∷ read_columns n text
read_columns (suc n) _ = []

-- The columns of a line of bytes, read two hexadecimal digits at a time, are these bytes.
read_columns-hex_columns :
    (line : Bytes) (rest : Text)
    → IsBytes line
    → read_columns (length line) (hex_columns line ++ rest) ≡ line
read_columns-hex_columns [] rest bytes = refl
read_columns-hex_columns (b ∷ bs) rest bytes =
    ap₂ (λ x xs. x ∷ xs)
      (omega (
        arith,
        digit_value-hex_digit (b / 16 % 16) (omega arith),
        digit_value-hex_digit (b % 16) (omega arith),
        bytes.0,
      ))
      (read_columns-hex_columns bs rest bytes.1)
