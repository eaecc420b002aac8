-- ===== src/WebServer/Tables.antt =====
-- Tables whose keys another table has too.
use cam_reverse_py.Base.{
  ◌≡◌, refl, sym, ◌∙◌, subst, Bool-cases, inl, inr, some, Text, text_eq, text_eq→eq, [], ◌∷◌,
  if◌then◌else◌,
}
use cam_reverse_py.Base.Tables.{Table, find, insert, remove, find-insert, find-insert_other}

module _ {A : Type 0} where
  abbrev pub Has : Text → Table A → Type 0
  Has key m = (a : A) × (find key m ≡ some a)

  pub Has-insert_same : (key : Text) (a : A) (m : Table A) → Has key (insert key a m)
  Has-insert_same key a m = (a, find-insert key a m)

  pub Has-insert : (key j : Text) (a : A) (m : Table A) → Has key m → Has key (insert j a m)
  Has-insert key j a m (b, h) = elim (Bool-cases (text_eq j key)) [
    | inl e ↦ subst (λ k. Has k (insert j a m)) (text_eq→eq j key e) (Has-insert_same j a m)
    | inr e ↦ (b, find-insert_other key j a m e ∙ h)
  ]

  pub Has-remove : (key j : Text) (m : Table A) → Has key (remove j m) → Has key m
  Has-remove key j [] h = h
  Has-remove key j ((k, v) ∷ m) (a, h) = elim (Bool-cases (text_eq k key)) [
    | inl e ↦ (v, rw e refl)
    | inr e ↦ elim (Bool-cases (text_eq k j)) [
      | inl f ↦
          (a, rw e (subst (λ b. find key (if b then m else (k, v) ∷ remove j m) ≡ some a) f h))
      | inr f ↦
          (let kept = subst (λ b. find key (if b then m else (k, v) ∷ remove j m) ≡ some a) f h in
            let held =
              Has-remove key j m
                (a, subst (λ b. (if b then some v else find key (remove j m)) ≡ some a) e kept) in
            (held.0, subst (λ b. (if b then some v else find key m) ≡ some held.0) (sym e) held.1))
    ]
  ]

module _ {A B : Type 0} where
  -- Every key of the first table is one of the second.
  abbrev pub Covers : Table A → Table B → Type 0
  Covers m n = (key : Text) → Has key m → Has key n

  pub Covers-insert :
      (j : Text) (b : B) (m : Table A) (n : Table B) → Covers m n → Covers m (insert j b n)
  Covers-insert j b m n c key h = Has-insert key j b n (c key h)

  pub Covers-keep :
      (j : Text) (a : A) (m : Table A) (n : Table B)
      → Has j n
      → Covers m n
      → Covers (insert j a m) n
  Covers-keep j a m n g c key (x, h) = elim (Bool-cases (text_eq j key)) [
    | inl e ↦ subst (λ k. Has k n) (text_eq→eq j key e) g
    | inr e ↦ c key (x, sym (find-insert_other key j a m e) ∙ h)
  ]

  pub Covers-both :
      (j : Text) (a : A) (b : B) (m : Table A) (n : Table B)
      → Covers m n
      → Covers (insert j a m) (insert j b n)
  Covers-both j a b m n c =
      Covers-keep j a m (insert j b n) (Has-insert_same j b n) (Covers-insert j b m n c)

  pub Covers-remove : (j : Text) (m : Table A) (n : Table B) → Covers m n → Covers (remove j m) n
  Covers-remove j m n c key h = c key (Has-remove key j m h)
