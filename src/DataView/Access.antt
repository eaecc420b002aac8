-- ===== src/DataView/Access.antt =====
-- What a write through a `DV` stores and what it leaves alone, at every width.
use cam_reverse_py.Base.{
  ℕ, ◌+◌, ◌%◌, ◌^◌, ◌≤◌, ◌<◌, ◌≡◌, refl, sym, ap, ◌∙◌, ◌++◌, take, drop, take_left, drop_left,
  drop-drop, length-take_le, arith, length, slice, splice, le→fits, length-splice, slice-splice,
  Result, ok,
}
use cam_reverse_py.DataView.{
  Bytes, Dv, view, unpack_from, pack_into, pack_be, unpack_be, read_u16, read_u32, read_u64,
  write_u16, write_u32, write_u64,
}
use cam_reverse_py.DataView.Words.{length-pack_be, unpack_be-pack_be}

-- `written` is `b` with the `n` bytes at `o` replaced, where `read` now finds `v`.
abbrev pub IsStored : Bytes → ℕ → ℕ → ℕ → (Dv → Result ℕ) → Result Bytes → Type 0
IsStored b o n v read written =
    (out : Bytes) × (written ≡ ok out)
    × (read (view out o) ≡ ok v)
    × (length out ≡ length b)
    × (take o out ≡ take o b)
    × (drop (o + n) out ≡ drop (o + n) b)

pub pack_into_ok :
    (b : Bytes) (o : ℕ) (bytes : Bytes)
    → o + length bytes ≤ length b
    → pack_into (view b o) bytes ≡ ok (splice b o bytes)
pack_into_ok b o bytes h = rw (le→fits (o + length bytes) b h)

pub unpack_from_ok :
    (decode : Bytes → ℕ) (b : Bytes) (o n : ℕ)
    → o + n ≤ length b
    → unpack_from decode n (view b o) ≡ ok (decode (slice b o n))
unpack_from_ok decode b o n h = rw (le→fits (o + n) b h)

take-splice : (b : Bytes) (o : ℕ) (ys : Bytes) → o ≤ length b → take o (splice b o ys) ≡ take o b
take-splice b o ys h = take_left o (take o b) (ys ++ drop (o + length ys) b) (length-take_le o b h)

drop-splice :
    (b : Bytes) (o n : ℕ) (ys : Bytes)
    → o ≤ length b
    → length ys ≡ n
    → drop (o + n) (splice b o ys) ≡ drop (o + n) b
drop-splice b o n ys h e =
    sym (drop-drop n o (o + n) (splice b o ys) refl)
    ∙ ap (drop n) (drop_left o (take o b) (ys ++ drop (o + length ys) b) (length-take_le o b h))
    ∙ drop_left n ys (drop (o + length ys) b) e
    ∙ ap (λ k. drop (o + k) b) e

-- A number written big-endian in `n` bytes is read back at the same width.
write_read :
    (b : Bytes) (o n v : ℕ)
    → o + n ≤ length b
    → v < 256 ^ n
    → IsStored b o n v (unpack_from unpack_be n) (pack_into (view b o) (pack_be n v))
write_read b o n v h small =
    let packed : length (pack_be n v) ≡ n = length-pack_be n v in
    let fit : o + length (pack_be n v) ≤ length b = omega (arith, packed) in
    let same = length-splice b o (pack_be n v) fit in
    (
      splice b o (pack_be n v),
      pack_into_ok b o (pack_be n v) fit,
      unpack_from_ok unpack_be (splice b o (pack_be n v)) o n (omega (arith, same))
          ∙ ap (λ l. ok (unpack_be l)) (slice-splice b o n (pack_be n v) (omega arith) packed)
          ∙ ap ok (unpack_be-pack_be n v small),
      same,
      take-splice b o (pack_be n v) (omega arith),
      drop-splice b o n (pack_be n v) (omega arith) packed,
    )

-- `write_u16` within the buffer replaces two bytes, and `read_u16` there gives the number modulo
-- 2 ^ 16; the length and all other bytes are kept.
pub read_u16-write_u16 :
    (b : Bytes) (o v : ℕ)
    → o + 2 ≤ length b
    → IsStored b o 2 (v % 2 ^ 16) read_u16 (write_u16 (view b o) v)
unfolding read_u16 write_u16
read_u16-write_u16 b o v h = write_read b o 2 (v % 2 ^ 16) h (omega arith)

-- `write_u32` within the buffer replaces four bytes, and `read_u32` there gives the number modulo
-- 2 ^ 32; the length and all other bytes are kept.
pub read_u32-write_u32 :
    (b : Bytes) (o v : ℕ)
    → o + 4 ≤ length b
    → IsStored b o 4 (v % 2 ^ 32) read_u32 (write_u32 (view b o) v)
unfolding read_u32 write_u32
read_u32-write_u32 b o v h = write_read b o 4 (v % 2 ^ 32) h (omega arith)

-- `write_u64` within the buffer replaces eight bytes, and `read_u64` there gives the number modulo
-- 2 ^ 64; the length and all other bytes are kept.
pub read_u64-write_u64 :
    (b : Bytes) (o v : ℕ)
    → o + 8 ≤ length b
    → IsStored b o 8 (v % 2 ^ 64) read_u64 (write_u64 (view b o) v)
unfolding read_u64 write_u64
read_u64-write_u64 b o v h = write_read b o 8 (v % 2 ^ 64) h (omega arith)
