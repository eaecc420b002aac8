-- ===== src/Crypto.antt =====
-- The payload obfuscation of cam_reverse/crypto.py. Both functions read the whole region first and
-- then write it back rotated; the result is the buffer that the view shares. Where a loop raises,
-- the partly written buffer is dropped with the packet by every caller, so it is not a result.
pub mod Loops
pub mod Cipher
pub mod Edges
use Prim.Native.Nat.{bit_and}
use cam_reverse_py.Base.{
  ℕ, zero, suc, ◌+◌, ◌-◌, ◌%◌, ◌^◌, List, [], ◌∷◌, Option, none, some, ltb, leb, ◌==◌,
  if◌then◌else◌, length, get_elem?, splice, Result, ok, err, index_error, or_raise, ◌>>=◌,
}
use cam_reverse_py.DataView.{Bytes, Dv, add, read_u8}

unfoldable pub flip_low_bit : ℕ → ℕ
flip_low_bit b = if bit_and b 1 == 0 then b + 1 else b - 1

-- The position that index `a - b` means in a Python sequence of length `n`: an index below 0
-- counts from the end.
unfoldable pub py_index : ℕ → ℕ → ℕ → Option ℕ
py_index n a b =
    if leb b a
    then if ltb (a - b) n then some (a - b) else none
    else if leb (b - a) n
    then some (n - (b - a))
    else none

-- The first loop: `new_buf`, with `left` rounds to go at index `i`.
unfoldable pub read_flipped : Dv → ℕ → ℕ → Result Bytes
read_flipped dv zero i = ok []
read_flipped dv (suc left) i = do
  x ← read_u8 (add dv i)
  rest ← read_flipped dv left (suc i)
  ok ((flip_low_bit x % 2 ^ 8) ∷ rest)

-- `write_u8` through a view whose offset is `a - b`.
unfoldable pub put_byte : Bytes → ℕ → ℕ → ℕ → Result Bytes
unfolding py_index
put_byte buf a b v = do
  p ← or_raise (py_index (length buf) a b) index_error
  ok (splice buf p ((v % 2 ^ 8) ∷ []))

-- `left` rounds of `buf[d - d'] = new_buf[s - s']`, both indices rising.
unfoldable pub copy : Bytes → ℕ → ℕ → ℕ → ℕ → ℕ → Bytes → Result Bytes
unfolding py_index put_byte
copy new zero s s' d d' buf = ok buf
copy new (suc left) s s' d d' buf = do
  p ← or_raise (py_index (length new) s s') index_error
  v ← or_raise (get_elem? new p) index_error
  buf' ← put_byte buf d d' v
  copy new left (suc s) s' (suc d) d' buf'

unfoldable pub xq_bytes_dec : Dv → ℕ → ℕ → Result Bytes
unfolding read_flipped flip_low_bit read_u8 copy
xq_bytes_dec dv buflen rotate = do
  new ← read_flipped dv buflen 0
  buf ← copy new (buflen - rotate) 0 0 (dv.offset + rotate) 0 dv.buf
  copy new rotate buflen rotate dv.offset 0 buf

unfoldable pub xq_bytes_enc : Dv → ℕ → ℕ → Result Bytes
unfolding read_flipped flip_low_bit read_u8 copy
xq_bytes_enc dv buflen rotate = do
  new ← read_flipped dv buflen 0
  buf ← copy new (buflen - rotate) rotate 0 dv.offset 0 dv.buf
  copy new rotate 0 0 (dv.offset + buflen) rotate buf
