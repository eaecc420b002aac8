-- ===== src/Base/Lists.antt =====
-- Lists measured and indexed by native numbers, and Python's slices of them.
use Prim.Native.Nat.{ℕ, zero, suc, ◌+◌, ◌-◌, ◌≤◌, ◌<◌, min}
use mathlib.Core.Path.{◌≡◌, refl, sym, ap, ◌∙◌}
use mathlib.Core.Bool.{Bool, true, false}
use mathlib.Core.List.{List, [], ◌∷◌, ◌++◌}
use mathlib.Core.Option.{Option, none, some}
use native.Mathlib.Omega.{arith}

module _ {ℓ} {A : Type ℓ} where
  abbrev pub length : List A → ℕ
  length [] = 0
  length (x ∷ xs) = suc (length xs)

  abbrev pub get_elem? : List A → ℕ → Option A
  get_elem? [] i = none
  get_elem? (x ∷ xs) zero = some x
  get_elem? (x ∷ xs) (suc i) = get_elem? xs i

  abbrev pub take : ℕ → List A → List A
  take zero xs = []
  take (suc n) [] = []
  take (suc n) (x ∷ xs) = x ∷ take n xs

  abbrev pub drop : ℕ → List A → List A
  drop zero xs = xs
  drop (suc n) [] = []
  drop (suc n) (x ∷ xs) = drop n xs

  abbrev pub replicate : ℕ → A → List A
  replicate zero a = []
  replicate (suc n) a = a ∷ replicate n a

  -- Whether `n` is at most the length.
  abbrev pub fits : ℕ → List A → Bool
  fits zero xs = true
  fits (suc n) [] = false
  fits (suc n) (x ∷ xs) = fits n xs

module _ {ℓ} {A : Type ℓ} where
  -- `xs[o : o + n]`
  abbrev pub slice : List A → ℕ → ℕ → List A
  slice xs o n = take n (drop o xs)

  -- `xs[o : o + len(ys)] = ys`; past the end it extends the list.
  abbrev pub splice : List A → ℕ → List A → List A
  splice xs o ys = take o xs ++ (ys ++ drop (o + length ys) xs)

  pub fits→le : (n : ℕ) (xs : List A) → fits n xs ≡ true → n ≤ length xs
  fits→le zero xs h = omega arith
  fits→le (suc n) [] h = ground arith
  fits→le (suc n) (x ∷ xs) h = omega (arith, fits→le n xs h)

  pub le→fits : (n : ℕ) (xs : List A) → n ≤ length xs → fits n xs ≡ true
  le→fits zero xs h = refl
  le→fits (suc n) [] h = absurd (omega arith)
  le→fits (suc n) (x ∷ xs) h = le→fits n xs (omega arith)

  pub lt→not_fits : (n : ℕ) (xs : List A) → length xs < n → fits n xs ≡ false
  lt→not_fits zero xs h = absurd (omega arith)
  lt→not_fits (suc n) [] h = refl
  lt→not_fits (suc n) (x ∷ xs) h = lt→not_fits n xs (omega arith)

  pub length-append : (xs ys : List A) → length (xs ++ ys) ≡ length xs + length ys
  length-append [] ys = omega arith
  length-append (x ∷ xs) ys = omega (arith, length-append xs ys)

  pub length-take : (n : ℕ) (xs : List A) → length (take n xs) ≡ min n (length xs)
  length-take zero xs = omega arith
  length-take (suc n) [] = omega arith
  length-take (suc n) (x ∷ xs) = omega (arith, length-take n xs)

  pub length-drop : (n : ℕ) (xs : List A) → length (drop n xs) ≡ length xs - n
  length-drop zero xs = omega arith
  length-drop (suc n) [] = omega arith
  length-drop (suc n) (x ∷ xs) = omega (arith, length-drop n xs)

  pub length-replicate : (n : ℕ) (a : A) → length (replicate n a) ≡ n
  length-replicate zero a = refl
  length-replicate (suc n) a = ap suc (length-replicate n a)

  pub take-append-drop : (n : ℕ) (xs : List A) → take n xs ++ drop n xs ≡ xs
  take-append-drop zero xs = refl
  take-append-drop (suc n) [] = refl
  take-append-drop (suc n) (x ∷ xs) = rw (take-append-drop n xs)

  pub take_all : (n : ℕ) (xs : List A) → length xs ≤ n → take n xs ≡ xs
  take_all zero [] h = refl
  take_all zero (x ∷ xs) h = absurd (omega arith)
  take_all (suc n) [] h = refl
  take_all (suc n) (x ∷ xs) h = ap (λ l. x ∷ l) (take_all n xs (omega arith))

  pub drop_all : (n : ℕ) (xs : List A) → length xs ≤ n → drop n xs ≡ []
  drop_all zero [] h = refl
  drop_all zero (x ∷ xs) h = absurd (omega arith)
  drop_all (suc n) [] h = refl
  drop_all (suc n) (x ∷ xs) h = drop_all n xs (omega arith)

  -- A prefix of a concatenation, at the length of its first part.
  pub take_left : (n : ℕ) (xs ys : List A) → length xs ≡ n → take n (xs ++ ys) ≡ xs
  take_left zero [] ys e = refl
  take_left zero (x ∷ xs) ys e = absurd (omega arith)
  take_left (suc n) [] ys e = absurd (omega arith)
  take_left (suc n) (x ∷ xs) ys e = ap (λ l. x ∷ l) (take_left n xs ys (omega arith))

  pub drop_left : (n : ℕ) (xs ys : List A) → length xs ≡ n → drop n (xs ++ ys) ≡ ys
  drop_left zero [] ys e = refl
  drop_left zero (x ∷ xs) ys e = absurd (omega arith)
  drop_left (suc n) [] ys e = absurd (omega arith)
  drop_left (suc n) (x ∷ xs) ys e = drop_left n xs ys (omega arith)

  pub take_within : (n : ℕ) (xs ys : List A) → n ≤ length xs → take n (xs ++ ys) ≡ take n xs
  take_within zero xs ys h = refl
  take_within (suc n) [] ys h = absurd (omega arith)
  take_within (suc n) (x ∷ xs) ys h = ap (λ l. x ∷ l) (take_within n xs ys (omega arith))

  pub drop_within : (n : ℕ) (xs ys : List A) → n ≤ length xs → drop n (xs ++ ys) ≡ drop n xs ++ ys
  drop_within zero xs ys h = refl
  drop_within (suc n) [] ys h = absurd (omega arith)
  drop_within (suc n) (x ∷ xs) ys h = drop_within n xs ys (omega arith)

  pub drop_past :
      (n : ℕ) (xs ys : List A) → length xs ≤ n → drop n (xs ++ ys) ≡ drop (n - length xs) ys
  drop_past n [] ys h = ap (λ k. drop k ys) (omega arith)
  drop_past zero (x ∷ xs) ys h = absurd (omega arith)
  drop_past (suc n) (x ∷ xs) ys h =
      drop_past n xs ys (omega arith) ∙ ap (λ k. drop k ys) (omega arith)

  pub drop_nil : (n : ℕ) → drop {A = A} n [] ≡ []
  drop_nil zero = refl
  drop_nil (suc n) = refl

  pub take_nil : (n : ℕ) → take {A = A} n [] ≡ []
  take_nil zero = refl
  take_nil (suc n) = refl

  pub drop-drop : (m n k : ℕ) (xs : List A) → n + m ≡ k → drop m (drop n xs) ≡ drop k xs
  drop-drop m zero k xs e = ap (λ j. drop j xs) (omega arith)
  drop-drop m (suc n) k [] e = drop_nil m ∙ sym (drop_nil k)
  drop-drop m (suc n) zero (x ∷ xs) e = absurd (omega arith)
  drop-drop m (suc n) (suc k) (x ∷ xs) e = drop-drop m n k xs (omega arith)

  pub take-take : (m n : ℕ) (xs : List A) → m ≤ n → take m (take n xs) ≡ take m xs
  take-take zero n xs h = refl
  take-take (suc m) zero xs h = absurd (omega arith)
  take-take (suc m) (suc n) [] h = refl
  take-take (suc m) (suc n) (x ∷ xs) h = ap (λ l. x ∷ l) (take-take m n xs (omega arith))

  pub drop-take : (m n k : ℕ) (xs : List A) → m + n ≡ k → drop m (take k xs) ≡ take n (drop m xs)
  drop-take zero n k xs e = ap (λ j. take j xs) (omega arith)
  drop-take (suc m) n zero xs e = absurd (omega arith)
  drop-take (suc m) n (suc k) [] e = sym (take_nil n)
  drop-take (suc m) n (suc k) (x ∷ xs) e = drop-take m n k xs (omega arith)

  -- A list in three parts.
  pub take-slice-drop :
      (o n k : ℕ) (xs : List A) → o + n ≡ k → take o xs ++ (slice xs o n ++ drop k xs) ≡ xs
  take-slice-drop o n k xs e =
      ap (λ l. take o xs ++ (slice xs o n ++ l)) (sym (drop-drop n o k xs e))
      ∙ ap (λ l. take o xs ++ l) (take-append-drop n (drop o xs))
      ∙ take-append-drop o xs

  pub length-take_le : (n : ℕ) (xs : List A) → n ≤ length xs → length (take n xs) ≡ n
  length-take_le n xs h = omega (arith, length-take n xs)

  pub length-slice : (o n : ℕ) (xs : List A) → o + n ≤ length xs → length (slice xs o n) ≡ n
  length-slice o n xs h = omega (arith, length-take n (drop o xs), length-drop o xs)
