-- ===== src/Base/Bits.antt =====
-- `&`, `|` and shifts as arithmetic. A number is split into a high and a low block of bits, and
-- the facts about a byte come from a table of its 256 values.
use Prim.Native.Nat.{
  ℕ, zero, suc, ◌+◌, ◌*◌, ◌/◌, ◌%◌, ◌^◌, ◌≤◌, ◌<◌, min, max, bit_and, bit_or, digits,
  bit_and-bitwise, bit_or-bitwise,
}
use mathlib.Core.Path.{◌≡◌, refl, ap}
use mathlib.Core.Bool.{Bool, true, ◌&&◌}
use native.Mathlib.Omega.{arith}
use native.Mathlib.Nat.{pow-suc}
use cam_reverse_py.Base.Tests.{◌==◌}

-- The recursion that the native operations stand for does not depend on its fuel.
digits-fuel :
    (rest : ℕ → ℕ) (op : ℕ → ℕ → ℕ) (fuel fuel' a b : ℕ)
    → a ≤ fuel
    → a ≤ fuel'
    → digits rest op fuel a b ≡ digits rest op fuel' a b
digits-fuel rest op zero zero zero b h h' = refl
digits-fuel rest op zero (suc m) zero b h h' = refl
digits-fuel rest op (suc n) zero zero b h h' = refl
digits-fuel rest op (suc n) (suc m) zero b h h' = refl
digits-fuel rest op zero m (suc a) b h h' = absurd (omega arith)
digits-fuel rest op (suc n) zero (suc a) b h h' = absurd (omega arith)
digits-fuel rest op (suc n) (suc m) (suc a) b h h' =
    ap (λ d. d * 2 + op (suc a % 2) (b % 2))
      (digits-fuel rest op n m (suc a / 2) (b / 2) (omega arith) (omega arith))

-- The lowest digit of both operations.
bit_and-halves : (a b : ℕ) → bit_and a b ≡ bit_and (a / 2) (b / 2) * 2 + min (a % 2) (b % 2)
bit_and-halves zero b = omega (arith, bit_and-bitwise 0 b, bit_and-bitwise 0 (b / 2))
bit_and-halves (suc a) b = omega (
  arith,
  bit_and-bitwise (suc a) b,
  bit_and-bitwise (suc a / 2) (b / 2),
  digits-fuel (λ y. 0) min a (suc a / 2) (suc a / 2) (b / 2) (omega arith) (omega arith),
)

bit_or-halves : (a b : ℕ) → bit_or a b ≡ bit_or (a / 2) (b / 2) * 2 + max (a % 2) (b % 2)
bit_or-halves zero b = omega (arith, bit_or-bitwise 0 b, bit_or-bitwise 0 (b / 2))
bit_or-halves (suc a) b = omega (
  arith,
  bit_or-bitwise (suc a) b,
  bit_or-bitwise (suc a / 2) (b / 2),
  digits-fuel (λ y. y) max a (suc a / 2) (suc a / 2) (b / 2) (omega arith) (omega arith),
)

double : (q k : ℕ) → q * 2 ^ suc k ≡ 2 * (q * 2 ^ k)
double q k = omega (arith, ap (λ (t : ℕ). q * t) (pow-suc 2 k))

-- Both operations work on the high and on the low block apart.
pub bit_and-blocks :
    (k q r s t : ℕ)
    → r < 2 ^ k
    → t < 2 ^ k
    → bit_and (q * 2 ^ k + r) (s * 2 ^ k + t) ≡ bit_and q s * 2 ^ k + bit_and r t
bit_and-blocks zero q r s t h h' =
    let er : r ≡ 0 = omega arith in let et : t ≡ 0 = omega arith in rw (er, et) (ground arith)
bit_and-blocks (suc k) q r s t h h' = ground (
  arith,
  double q k,
  double s k,
  double (bit_and q s) k,
  pow-suc 2 k,
  bit_and-halves (q * 2 ^ suc k + r) (s * 2 ^ suc k + t),
  bit_and-halves r t,
  bit_and-blocks k q (r / 2) s (t / 2),
)

pub bit_or-blocks :
    (k q r s t : ℕ)
    → r < 2 ^ k
    → t < 2 ^ k
    → bit_or (q * 2 ^ k + r) (s * 2 ^ k + t) ≡ bit_or q s * 2 ^ k + bit_or r t
bit_or-blocks zero q r s t h h' =
    let er : r ≡ 0 = omega arith in let et : t ≡ 0 = omega arith in rw (er, et) (ground arith)
bit_or-blocks (suc k) q r s t h h' = ground (
  arith,
  double q k,
  double s k,
  double (bit_or q s) k,
  pow-suc 2 k,
  bit_or-halves (q * 2 ^ suc k + r) (s * 2 ^ suc k + t),
  bit_or-halves r t,
  bit_or-blocks k q (r / 2) s (t / 2),
)

-- A fact about every number below a bound, by running through them.
pub below_all : ℕ → (ℕ → Bool) → Bool
below_all zero p = true
below_all (suc n) p = p n && below_all n p

pub below_table : (n : ℕ) (p : ℕ → Bool) → below_all n p ≡ true → (x : ℕ) → x < n → p x ≡ true
unfolding below_all
below_table zero p h x lt = absurd (omega arith)
below_table (suc n) p h x lt = ground (arith, below_table n p (ground arith) x)

byte_table :
    below_all 256 (λ x.
      bit_and x 255 == x
      && bit_and x 0 == 0
      && bit_and x 1 == x % 2
      && bit_or x 0 == x
      && bit_or 0 x == x)
    ≡ true
unfolding below_all
byte_table = refl

-- What the operations do to a byte at the masks that the program uses.
pub byte_facts :
    (x : ℕ)
    → x < 256
    → (bit_and x 255 ≡ x)
      × (bit_and x 0 ≡ 0)
      × (bit_and x 1 ≡ x % 2)
      × (bit_or x 0 ≡ x)
      × (bit_or 0 x ≡ x)
byte_facts x h = ground (arith, below_table 256 _ byte_table x h)
