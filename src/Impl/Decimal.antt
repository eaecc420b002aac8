-- ===== src/Impl/Decimal.antt =====
-- The decimal text of a number, which a serial and a version hold: the fuel is enough for all digits.
use cam_reverse_py.Base.{
  ℕ, zero, suc, ◌+◌, ◌-◌, ◌*◌, ◌/◌, ◌%◌, ◌≤◌, ◌≡◌, sym, ap, subst, ◌∙◌, Bool, true, false, [], ◌∷◌,
  Text, arith, ltb, ltb→lt, Bool-cases, inl, inr,
}
use cam_reverse_py.Impl.{decimal, decimal_digits}

-- The number that a text of digits stands for, behind digits that stand for `v`.
abbrev pub value : ℕ → Text → ℕ
value v [] = v
value v (c ∷ s) = value (v * 10 + (c - 48)) s

abbrev pub AreDigits : Text → Type 0
AreDigits [] = Unit {0}
AreDigits (c ∷ s) = (48 ≤ c) × (c ≤ 57) × AreDigits s

-- A text holds the digits of `n` before those of `acc`.
abbrev Holds : ℕ → Text → Text → Type 0
Holds n acc text = (value 0 text ≡ value n acc) × AreDigits text

-- The branches of `decimal_digits`.
abbrev digits_if : Bool → ℕ → ℕ → Text → Text
digits_if b fuel n acc = elim b [
  | true ↦ (n + 48) ∷ acc
  | false ↦ decimal_digits fuel (n / 10) ((n % 10 + 48) ∷ acc)
]

digits_lem :
    (fuel n : ℕ) (acc : Text) → n ≤ fuel → AreDigits acc → Holds n acc (decimal_digits fuel n acc)
digits_lem zero n acc h all = (ap (λ v. value v acc) (omega arith), (omega arith, omega arith, all))
digits_lem (suc fuel) n acc h all = elim (Bool-cases (ltb n 10)) [
  | inl small ↦
      (let less = ltb→lt n 10 small in
        subst (λ b. Holds n acc (digits_if b fuel n acc)) (sym small)
          (ap (λ v. value v acc) (omega arith), (omega arith, omega arith, all)))
  | inr large ↦
      (let less : 10 ≤ n = ground arith in
        let (read, digits) =
          digits_lem fuel (n / 10) ((n % 10 + 48) ∷ acc) (omega arith)
            (omega arith, omega arith, all) in
        subst (λ b. Holds n acc (digits_if b fuel n acc)) (sym large)
          (read ∙ ap (λ v. value v acc) (omega arith), digits))
]

-- The text of a number consists of the digits 0 to 9, and read in base ten it is the number.
pub value-decimal : (n : ℕ) → (value 0 (decimal n) ≡ n) × AreDigits (decimal n)
unfolding decimal
value-decimal n = digits_lem n n [] (omega arith) tt
