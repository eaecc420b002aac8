-- ===== src/Base/Tables.antt =====
-- Dictionaries keyed by texts, in the order of insertion.
use mathlib.Core.Path.{◌≡◌, refl, sym, ap, subst}
use mathlib.Core.Logic.{inl, inr}
use mathlib.Core.Bool.{false}
use mathlib.Core.Option.{Option, none, some}
use mathlib.Core.List.{List, [], ◌∷◌}
use cam_reverse_py.Base.Tests.{Text, text_eq, text_eq_refl, text_eq→eq, Bool-cases, if◌then◌else◌}

abbrev pub Table {ℓ} : Type ℓ → Type ℓ
Table A = List (Text × A)

module _ {ℓ} {A : Type ℓ} where
  abbrev pub find : Text → Table A → Option A
  find key [] = none
  find key ((k, v) ∷ m) = if text_eq k key then some v else find key m

  abbrev pub insert : Text → A → Table A → Table A
  insert key w [] = (key, w) ∷ []
  insert key w ((k, v) ∷ m) = if text_eq k key then (k, w) ∷ m else (k, v) ∷ insert key w m

  -- `m.pop(key, None)`: keys are listed once, so no later entry has the key.
  abbrev pub remove : Text → Table A → Table A
  remove key [] = []
  remove key ((k, v) ∷ m) = if text_eq k key then m else (k, v) ∷ remove key m

  pub find-insert : (key : Text) (w : A) (m : Table A) → find key (insert key w m) ≡ some w
  find-insert key w [] = rw text_eq_refl
  find-insert key w ((k, v) ∷ m) = elim (Bool-cases (text_eq k key)) [
    | inl e ↦ rw (e, e)
    | inr e ↦ rw (e, e) (find-insert key w m)
  ]

  -- The entry of another key is left alone.
  pub find-insert_other :
      (key j : Text) (w : A) (m : Table A)
      → text_eq j key ≡ false
      → find key (insert j w m) ≡ find key m
  find-insert_other key j w [] h = rw h
  find-insert_other key j w ((k, v) ∷ m) h = elim (Bool-cases (text_eq k j)) [
    | inl e ↦
        (let same = subst (λ t. text_eq t key ≡ false) (sym (text_eq→eq k j e)) h in rw (e, same))
    | inr e ↦ rw e (ap (λ o. if text_eq k key then some v else o) (find-insert_other key j w m h))
  ]

  pub find-remove_other :
      (key j : Text) (m : Table A) → text_eq j key ≡ false → find key (remove j m) ≡ find key m
  find-remove_other key j [] h = refl
  find-remove_other key j ((k, v) ∷ m) h = elim (Bool-cases (text_eq k j)) [
    | inl e ↦
        (let same = subst (λ t. text_eq t key ≡ false) (sym (text_eq→eq k j e)) h in rw (e, same))
    | inr e ↦ rw e (ap (λ o. if text_eq k key then some v else o) (find-remove_other key j m h))
  ]
