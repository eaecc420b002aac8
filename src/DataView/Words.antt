-- ===== src/DataView/Words.antt =====
-- The bytes of an unsigned number, in both orders.
use cam_reverse_py.Base.{
  ℕ, zero, suc, ◌+◌, ◌*◌, ◌/◌, ◌%◌, ◌^◌, ◌<◌, ◌≡◌, refl, sym, subst, ap, ap₂, ◌∙◌, [], ◌∷◌, ◌++◌,
  arith, length, take, drop, length-append,
}
use mathlib.Core.List.{reverse, reverse-cons, reverse-reverse}
use native.Mathlib.Nat.{pow-suc}
use cam_reverse_py.DataView.{Bytes, pack_le, unpack_le, pack_be, unpack_be}

-- Every element is a byte.
abbrev pub IsBytes : Bytes → Type 0
IsBytes [] = Unit {0}
IsBytes (x ∷ xs) = (x < 256) × IsBytes xs

pub length-pack_le : (n v : ℕ) → length (pack_le n v) ≡ n
length-pack_le zero v = refl
length-pack_le (suc n) v = ap suc (length-pack_le n (v / 256))

pub length-reverse : (xs : Bytes) → length (reverse xs) ≡ length xs
length-reverse [] = refl
length-reverse (x ∷ xs) =
    ap length (reverse-cons x xs)
    ∙ omega (arith, length-append (reverse xs) (x ∷ []), length-reverse xs)

pub length-pack_be : (n v : ℕ) → length (pack_be n v) ≡ n
length-pack_be n v = length-reverse (pack_le n v) ∙ length-pack_le n v

-- Reading the packed bytes gives the number, reduced to the width.
pub unpack_le-pack_le : (n v : ℕ) → v < 256 ^ n → unpack_le (pack_le n v) ≡ v
unpack_le-pack_le zero v h = omega arith
unpack_le-pack_le (suc n) v h =
    omega (arith, pow-suc 256 n, unpack_le-pack_le n (v / 256) (omega (arith, pow-suc 256 n)))

pub unpack_be-pack_be : (n v : ℕ) → v < 256 ^ n → unpack_be (pack_be n v) ≡ v
unpack_be-pack_be n v h = rw reverse-reverse (unpack_le-pack_le n v h)

-- Packing what was read gives the bytes back.
pub pack_le-unpack_le : (xs : Bytes) → IsBytes xs → pack_le (length xs) (unpack_le xs) ≡ xs
pack_le-unpack_le [] h = refl
pack_le-unpack_le (x ∷ xs) h =
    let low : (x + 256 * unpack_le xs) % 256 ≡ x = omega arith in
    let high : (x + 256 * unpack_le xs) / 256 ≡ unpack_le xs = omega arith in
    ap₂ ◌∷◌ low (ap (pack_le (length xs)) high ∙ pack_le-unpack_le xs h.1)

pub unpack_le-lt : (xs : Bytes) → IsBytes xs → unpack_le xs < 256 ^ length xs
unpack_le-lt [] h = omega arith
unpack_le-lt (x ∷ xs) h = omega (arith, pow-suc 256 (length xs), unpack_le-lt xs h.1)

pub IsBytes-append : (xs ys : Bytes) → IsBytes xs → IsBytes ys → IsBytes (xs ++ ys)
IsBytes-append [] ys h k = k
IsBytes-append (x ∷ xs) ys h k = (h.0, IsBytes-append xs ys h.1 k)

pub IsBytes-reverse : (xs : Bytes) → IsBytes xs → IsBytes (reverse xs)
IsBytes-reverse [] h = tt
IsBytes-reverse (x ∷ xs) h =
    rw (reverse-cons x xs) (IsBytes-append (reverse xs) (x ∷ []) (IsBytes-reverse xs h.1) (h.0, tt))

pub pack_be-unpack_be : (xs : Bytes) → IsBytes xs → pack_be (length xs) (unpack_be xs) ≡ xs
pack_be-unpack_be xs h =
    ap (λ n. pack_be n (unpack_be xs)) (sym (length-reverse xs))
    ∙ ap reverse (pack_le-unpack_le (reverse xs) (IsBytes-reverse xs h))
    ∙ reverse-reverse xs

pub IsBytes-take : (n : ℕ) (xs : Bytes) → IsBytes xs → IsBytes (take n xs)
IsBytes-take zero xs h = tt
IsBytes-take (suc n) [] h = tt
IsBytes-take (suc n) (x ∷ xs) h = (h.0, IsBytes-take n xs h.1)

pub IsBytes-drop : (n : ℕ) (xs : Bytes) → IsBytes xs → IsBytes (drop n xs)
IsBytes-drop zero xs h = h
IsBytes-drop (suc n) [] h = tt
IsBytes-drop (suc n) (x ∷ xs) h = IsBytes-drop n xs h.1

pub unpack_be-lt : (xs : Bytes) (n : ℕ) → IsBytes xs → length xs ≡ n → unpack_be xs < 256 ^ n
unpack_be-lt xs n h e =
    subst (λ k. unpack_be xs < 256 ^ k) (length-reverse xs ∙ e)
      (unpack_le-lt (reverse xs) (IsBytes-reverse xs h))
