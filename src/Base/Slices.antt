-- ===== src/Base/Slices.antt =====
-- Writing a slice of a list, and reading slices of the result.
use Prim.Native.Nat.{ℕ, suc, ◌+◌, ◌-◌, ◌≤◌}
use mathlib.Core.Path.{◌≡◌, refl, sym, ap, ap₂, ◌∙◌}
use mathlib.Core.List.{List, [], ◌∷◌, ◌++◌, append_assoc}
use native.Mathlib.Omega.{arith}
use cam_reverse_py.Base.Lists.{
  length, take, drop, slice, splice, length-append, length-take, length-drop, length-take_le,
  take_left, drop_left, take_within, take-take, drop-take, drop_past, drop-drop, take-slice-drop,
  length-slice,
}

module _ {ℓ} {A : Type ℓ} where
  -- Writing within bounds keeps the length.
  pub length-splice :
      (xs : List A) (o : ℕ) (ys : List A)
      → o + length ys ≤ length xs
      → length (splice xs o ys) ≡ length xs
  length-splice xs o ys h = omega (
    arith,
    length-append (take o xs) (ys ++ drop (o + length ys) xs),
    length-append ys (drop (o + length ys) xs),
    length-take o xs,
    length-drop (o + length ys) xs,
  )

  -- What was written is read back.
  pub slice-splice :
      (xs : List A) (o n : ℕ) (ys : List A)
      → o ≤ length xs
      → length ys ≡ n
      → slice (splice xs o ys) o n ≡ ys
  slice-splice xs o n ys h e =
      ap (take n) (drop_left o (take o xs) (ys ++ drop (o + length ys) xs) (length-take_le o xs h))
      ∙ take_left n ys (drop (o + length ys) xs) e

  -- A write does not touch what lies before it,
  pub slice-splice_before :
      (xs : List A) (o n p : ℕ) (ys : List A)
      → o + n ≤ p
      → p ≤ length xs
      → slice (splice xs p ys) o n ≡ slice xs o n
  slice-splice_before xs o n p ys h b =
      let front : o + n ≤ length (take p xs) = omega (arith, length-take p xs) in
      sym (drop-take o n (o + n) (splice xs p ys) refl)
      ∙ ap (drop o) (take_within (o + n) (take p xs) (ys ++ drop (p + length ys) xs) front)
      ∙ ap (drop o) (take-take (o + n) p xs h)
      ∙ drop-take o n (o + n) xs refl

  -- nor what lies behind it.
  pub slice-splice_behind :
      (xs : List A) (o n p : ℕ) (ys : List A)
      → p + length ys ≤ o
      → p ≤ length xs
      → slice (splice xs p ys) o n ≡ slice xs o n
  slice-splice_behind xs o n p ys h b = ap (take n) (
      drop_past o (take p xs) (ys ++ drop (p + length ys) xs) (omega (arith, length-take p xs))
      ∙ ap (λ k. drop k (ys ++ drop (p + length ys) xs)) {y = o - p}
          (omega (arith, length-take_le p xs b))
      ∙ drop_past (o - p) ys (drop (p + length ys) xs) (omega arith)
      ∙ drop-drop (o - p - length ys) (p + length ys) o xs (omega arith))

  -- Writing back what stands there changes nothing.
  pub splice-slice : (xs : List A) (o n : ℕ) → o + n ≤ length xs → splice xs o (slice xs o n) ≡ xs
  splice-slice xs o n h =
      take-slice-drop o n (o + length (slice xs o n)) xs
        (ap (λ k. o + k) (sym (length-slice o n xs h)))

  -- Writing over the middle of a list that is given in three parts.
  pub splice_middle :
      (pre mid post ys : List A) (o : ℕ)
      → length pre ≡ o
      → length ys ≡ length mid
      → splice (pre ++ (mid ++ post)) o ys ≡ pre ++ (ys ++ post)
  splice_middle pre mid post ys o e e' =
      ap₂ (λ l r. l ++ (ys ++ r)) (take_left o pre (mid ++ post) e)
        (sym (drop-drop (length ys) o (o + length ys) (pre ++ (mid ++ post)) refl)
          ∙ ap (drop (length ys)) (drop_left o pre (mid ++ post) e)
          ∙ drop_left (length ys) mid post (sym e'))

  -- The first element of the rest, moved to the part before it.
  pub move_front :
      (pre : List A) (x : A) (rest : List A) → pre ++ x ∷ rest ≡ (pre ++ x ∷ []) ++ rest
  move_front pre x rest = sym (append_assoc pre (x ∷ []) rest)

  pub length-snoc : (xs : List A) (x : A) → length (xs ++ x ∷ []) ≡ suc (length xs)
  length-snoc xs x = omega (arith, length-append xs (x ∷ []))
