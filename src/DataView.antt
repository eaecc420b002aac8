-- ===== src/DataView.antt =====
-- `DV` of cam_reverse/dataview.py: a byte cursor over a shared buffer. A `bytearray` is a list of
-- bytes; a write gives back the whole buffer, and views of the same buffer made afterwards are
-- made of that. Offsets are natural numbers: the one place of the program that goes below 0 is
-- in cam_reverse/crypto.py, and is modelled there by `py_index`.
pub mod Words
pub mod Access
use cam_reverse_py.Base.{
  ℕ, zero, suc, ◌+◌, ◌-◌, ◌*◌, ◌/◌, ◌%◌, ◌^◌, Bool, true, false, ◌&&◌, ◌||◌, List, [], ◌∷◌, ◌++◌,
  Text, ltb, leb, ◌==◌, if◌then◌else◌, length, get_elem?, take, drop, replicate, fits, slice,
  splice, text_eq, Result, ok, err, index_error, struct_error, or_raise,
}
use mathlib.Core.List.{reverse}

abbrev pub Bytes : Type 0
Bytes = List ℕ

pub record Dv : Type 0 where
  pub buf : Bytes
  pub offset : ℕ

-- A view of a buffer at an offset.
abbrev pub view : Bytes → ℕ → Dv
view b o = record { buf = b; offset = o }

-- The buffer of `DV.alloc`.
abbrev pub alloc : ℕ → Bytes
alloc size = replicate size 0

abbrev pub add : Dv → ℕ → Dv
add dv o = record dv { offset = dv.offset + o }

abbrev pub byte_length : Dv → ℕ
byte_length dv = length dv.buf - dv.offset

-- What `struct` does with the bytes of an unsigned number, the lowest byte first or last.
abbrev pub pack_le : ℕ → ℕ → Bytes
pack_le zero v = []
pack_le (suc n) v = (v % 256) ∷ pack_le n (v / 256)

abbrev pub unpack_le : Bytes → ℕ
unpack_le [] = 0
unpack_le (x ∷ xs) = x + 256 * unpack_le xs

abbrev pub pack_be : ℕ → ℕ → Bytes
pack_be n v = reverse (pack_le n v)

abbrev pub unpack_be : Bytes → ℕ
unpack_be xs = unpack_le (reverse xs)

-- `struct.unpack_from` of one number of `n` bytes.
abbrev pub unpack_from : (Bytes → ℕ) → ℕ → Dv → Result ℕ
unpack_from decode n dv =
    if fits (dv.offset + n) dv.buf then ok (decode (slice dv.buf dv.offset n)) else err struct_error

-- `struct.pack_into`, given the packed bytes.
abbrev pub pack_into : Dv → Bytes → Result Bytes
pack_into dv bytes =
    if fits (dv.offset + length bytes) dv.buf
    then ok (splice dv.buf dv.offset bytes)
    else err struct_error

-- `xs.startswith(ys)` and `ys in xs`.
abbrev pub has_prefix : Bytes → Bytes → Bool
has_prefix xs [] = true
has_prefix [] (y ∷ ys) = false
has_prefix (x ∷ xs) (y ∷ ys) = x == y && has_prefix xs ys

abbrev pub contains : Bytes → Bytes → Bool
contains [] ys = has_prefix [] ys
contains (x ∷ xs) ys = has_prefix (x ∷ xs) ys || contains xs ys

unfoldable pub read_u8 : Dv → Result ℕ
read_u8 dv = or_raise (get_elem? dv.buf dv.offset) index_error

unfoldable pub read_u16 : Dv → Result ℕ
read_u16 dv = unpack_from unpack_be 2 dv

unfoldable pub read_u16le : Dv → Result ℕ
read_u16le dv = unpack_from unpack_le 2 dv

unfoldable pub read_u32 : Dv → Result ℕ
read_u32 dv = unpack_from unpack_be 4 dv

unfoldable pub read_u32le : Dv → Result ℕ
read_u32le dv = unpack_from unpack_le 4 dv

unfoldable pub read_u64 : Dv → Result ℕ
read_u64 dv = unpack_from unpack_be 8 dv

unfoldable pub read_byte_array : Dv → ℕ → Bytes
read_byte_array dv n = slice dv.buf dv.offset n

-- `raw[: raw.find(0)]`, or all of `raw` if it holds no 0.
abbrev pub before_nul : Bytes → Text
before_nul [] = []
before_nul (x ∷ xs) = if x == 0 then [] else x ∷ before_nul xs

-- Decoding latin-1 keeps each byte as the code point of that number.
unfoldable pub read_string : Dv → ℕ → Text
read_string dv n = before_nul (slice dv.buf dv.offset n)

unfoldable pub write_u8 : Dv → ℕ → Result Bytes
write_u8 dv v =
    if fits (dv.offset + 1) dv.buf
    then ok (splice dv.buf dv.offset ((v % 2 ^ 8) ∷ []))
    else err index_error

unfoldable pub write_u16 : Dv → ℕ → Result Bytes
write_u16 dv v = pack_into dv (pack_be 2 (v % 2 ^ 16))

unfoldable pub write_u32 : Dv → ℕ → Result Bytes
write_u32 dv v = pack_into dv (pack_be 4 (v % 2 ^ 32))

unfoldable pub write_u64 : Dv → ℕ → Result Bytes
write_u64 dv v = pack_into dv (pack_be 8 (v % 2 ^ 64))

-- Slice assignment raises nothing, and extends a buffer that is too short.
unfoldable pub write_byte_array : Dv → Bytes → Bytes
write_byte_array dv bytes = splice dv.buf dv.offset bytes

unfoldable pub starts_with : Dv → Bytes → Bool
starts_with dv bytes =
    if ltb (length dv.buf) (dv.offset + length bytes)
    then false
    else text_eq (slice dv.buf dv.offset (length bytes)) bytes

unfoldable pub to_bytes : Dv → Bytes
to_bytes dv = drop dv.offset dv.buf
