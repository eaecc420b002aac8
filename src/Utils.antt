-- ===== src/Utils.antt =====
-- The byte-order helpers of cam_reverse/utils.py.
use Prim.Native.Nat.{bit_and, bit_or}
use cam_reverse_py.Base.{ℕ, ◌+◌, ◌*◌, ◌/◌, ◌%◌, ◌^◌, ◌<◌, ◌≡◌, ap, ap₂, ◌∙◌, [], ◌∷◌, arith}
use cam_reverse_py.Base.Bits.{bit_and-blocks, bit_or-blocks, byte_facts}
use cam_reverse_py.DataView.{pack_le, pack_be}

infixl 75 ◌<<◌ ◌>>>◌
abbrev pub ◌<<◌ : ℕ → ℕ → ℕ
x << k = x * 2 ^ k

abbrev pub ◌>>>◌ : ℕ → ℕ → ℕ
x >>> k = x / 2 ^ k

unfoldable pub u16_swap : ℕ → ℕ
u16_swap x = bit_or (bit_and x 0xFF00 >>> 8) (bit_and x 0x00FF << 8)

unfoldable pub u32_swap : ℕ → ℕ
u32_swap x =
    bit_or
      (bit_or (bit_or (bit_and x 0xFF000000 >>> 24) (bit_and x 0x00FF0000 >>> 8))
        (bit_and x 0x0000FF00 << 8))
      (bit_and x 0x000000FF << 24)

-- The high and the low byte of a 16-bit number, masked.
mask_high : (hi lo : ℕ) → hi < 256 → lo < 256 → bit_and (hi * 256 + lo) 0xFF00 ≡ hi * 256
mask_high hi lo h h' =
    omega (arith, bit_and-blocks 8 hi lo 255 0 h' (omega arith), byte_facts hi h, byte_facts lo h')

mask_low : (hi lo : ℕ) → hi < 256 → lo < 256 → bit_and (hi * 256 + lo) 0x00FF ≡ lo
mask_low hi lo h h' =
    omega (arith, bit_and-blocks 8 hi lo 0 255 h' (omega arith), byte_facts hi h, byte_facts lo h')

join : (hi lo : ℕ) → hi < 256 → lo < 256 → bit_or lo (hi * 256) ≡ hi * 256 + lo
join hi lo h h' =
    ap₂ bit_or {y = 0 * 256 + lo} {v = hi * 256 + 0} (omega arith) (omega arith)
    ∙ bit_or-blocks 8 0 lo hi 0 h' (omega arith)
    ∙ omega (arith, byte_facts hi h, byte_facts lo h')

-- The swap as arithmetic.
pub u16_swap_lem : (x : ℕ) → x < 2 ^ 16 → u16_swap x ≡ x % 256 * 256 + x / 256
unfolding u16_swap
u16_swap_lem x h =
    let split : x ≡ x / 256 * 256 + x % 256 = omega arith in
    let high = mask_high (x / 256) (x % 256) (omega arith) (omega arith) in
    let low = mask_low (x / 256) (x % 256) (omega arith) (omega arith) in
    let both = join (x % 256) (x / 256) (omega arith) (omega arith) in
    ap u16_swap split
    ∙ ap₂ (λ a b. bit_or (a / 256) (b * 256)) high low
    ∙ ap (λ a. bit_or a (x % 256 * 256)) {y = x / 256} (omega arith)
    ∙ both

-- Swapping the bytes of a 16-bit number twice gives it back, and a swapped number packed big-endian
-- is the number packed little-endian.
pub u16_swap_twice :
    (x : ℕ) → x < 2 ^ 16 → (u16_swap (u16_swap x) ≡ x) × (pack_be 2 (u16_swap x) ≡ pack_le 2 x)
u16_swap_twice x h =
    let once = u16_swap_lem x h in
    let twice = u16_swap_lem (u16_swap x) (omega (arith, once)) in
    (
      omega (arith, once, twice),
      ap₂ (λ a b. a ∷ b ∷ []) {y = x % 256} {v = x / 256 % 256} (omega (arith, once))
          (omega (arith, once)),
    )
