-- ===== src/Scripts.antt =====
-- The decoders of scripts/dec.py and scripts/dec_svr.py.
pub mod Decoder
pub mod Hexdump
pub mod Columns
use cam_reverse_py.Base.{
  ℕ, zero, suc, ◌+◌, ◌-◌, ◌*◌, ◌/◌, ◌%◌, ◌^◌, Bool, true, false, ◌&&◌, List, [], ◌∷◌, ◌++◌, map,
  Text, ◌==◌, leb, take, drop, length, if◌then◌else◌, Result, ok, err, value_error, ◌>>=◌,
}
use cam_reverse_py.DataView.{Bytes}

-- A byte of the loop of `dec`.
abbrev pub flip : ℕ → ℕ
flip b = if b % 2 == 0 then b + 1 else b - 1

-- `xs[-4:]` and `xs[:-4]`.
abbrev pub last_four : Bytes → Bytes
last_four xs = drop (length xs - 4) xs

abbrev pub before_four : Bytes → Bytes
before_four xs = take (length xs - 4) xs

-- `dec`.
unfoldable pub dec : Bytes → Bytes
dec d = let ret = map flip (drop 0x14 d) in take 0x14 d ++ (last_four ret ++ before_four ret)

-- `ct.index(cur)`: the pairs of capital letters in order.
abbrev pub is_capital : ℕ → Bool
is_capital c = leb 65 c && leb c 90

abbrev pub pair_index : ℕ → ℕ → Result ℕ
pair_index a b =
    if is_capital a && is_capital b then ok ((a - 65) * 26 + (b - 65)) else err value_error

-- The character of a pair.
abbrev pub server_char : ℕ → ℕ
server_char idx = (idx - idx / 0x5E * 0x5E + 0x20) % 2 ^ 7

-- The loop of dec_svr.py; a single letter at the end is no pair.
unfoldable pub decode_server : Text → Result Text
decode_server [] = ok []
decode_server (a ∷ []) = err value_error
decode_server (a ∷ b ∷ rest) = do
  idx ← pair_index a b
  text ← decode_server rest
  ok (server_char idx ∷ text)
