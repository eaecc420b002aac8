-- ===== src/Scripts/Hexdump.antt =====
-- The hexdump of scripts/dec.py, as the text that it prints.
use cam_reverse_py.Base.{
  ℕ, zero, suc, ◌+◌, ◌-◌, ◌*◌, ◌/◌, ◌%◌, Bool, ◌||◌, ◌&&◌, leb, ltb, [], ◌∷◌, ◌++◌, Text, take,
  drop, length, replicate, if◌then◌else◌,
}
use cam_reverse_py.DataView.{Bytes}

abbrev pub hex_digit : ℕ → ℕ
hex_digit d = if ltb d 10 then 48 + d else 87 + d

abbrev pub hex_digit_upper : ℕ → ℕ
hex_digit_upper d = if ltb d 10 then 48 + d else 55 + d

-- `f"{n:0wx}"` for a number of at most so many digits.
abbrev pub hex : ℕ → ℕ → Text
hex zero n = []
hex (suc w) n = hex w (n / 16) ++ hex_digit (n % 16) ∷ []

-- The columns of the head: so many of them, from `i` on.
abbrev pub head_columns : ℕ → ℕ → Text
head_columns zero i = []
head_columns (suc n) i = 32 ∷ hex_digit_upper i ∷ 32 ∷ head_columns n (i + 1)

abbrev pub head_digits : ℕ → ℕ → Text
head_digits zero i = []
head_digits (suc n) i = hex_digit_upper i ∷ head_digits n (i + 1)

abbrev pub dump_head : Text
dump_head = replicate 10 32 ++ (head_columns 16 0 ++ (32 ∷ 32 ∷ (head_digits 16 0 ++ 10 ∷ [])))

abbrev pub hex_columns : Bytes → Text
hex_columns [] = []
hex_columns (b ∷ bs) = hex 2 b ++ 32 ∷ hex_columns bs

-- Digits and ASCII letters are printed as they are, and other bytes as a dot.
abbrev pub is_printed : ℕ → Bool
is_printed b = (leb 48 b && leb b 57) || (leb 65 b && leb b 90) || (leb 97 b && leb b 122)

abbrev pub printed : Bytes → Text
printed [] = []
printed (b ∷ bs) = (if is_printed b then b else 46) ∷ printed bs

abbrev pub dump_line : ℕ → Bytes → Text
dump_line i line =
    hex 8 i
    ++ (32
        ∷ 32
        ∷ (hex_columns line
            ++ (replicate (3 * (16 - length line)) 32 ++ (32 ∷ 32 ∷ (printed line ++ 10 ∷ [])))))

-- The loop over the lines; the bytes left are at most as many as the rounds left.
abbrev pub dump_lines : ℕ → ℕ → Bytes → Text
dump_lines zero i dump = []
dump_lines (suc n) i [] = []
dump_lines (suc n) i (b ∷ bs) =
    let line = take 16 (b ∷ bs) in
    let rest = dump_lines n (i + 16) (drop 16 (b ∷ bs)) in dump_line i line ++ rest

unfoldable pub hexdump : Bytes → Text
hexdump dump = dump_head ++ dump_lines (length dump) 0 dump
