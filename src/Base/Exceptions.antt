-- ===== src/Base/Exceptions.antt =====
-- Python's exceptions as values. The model tells the exceptions of the program apart by their
-- class; their messages are not modelled.
use mathlib.Core.Path.{◌≡◌, ap, ◌∙◌}
use mathlib.Core.Option.{Option, none, some}

pub data Error : Type 0 where
  index_error struct_error value_error encode_error key_error attribute_error type_error os_error
        yaml_error :
      Error

pub data Result {ℓ} (A : Type ℓ) : Type ℓ where
  err : Error → Result A
  ok : A → Result A

-- What a call that may have raised is followed by.
abbrev pub bind {ℓ κ} : {A : Type ℓ} {B : Type κ} → (A → Result B) → Result A → Result B
bind f (err e) = err e
bind f (ok a) = f a

infixl 5 ◌>>=◌
abbrev pub ◌>>=◌ {ℓ κ} : {A : Type ℓ} {B : Type κ} → Result A → (A → Result B) → Result B
m >>= f = bind f m

abbrev pub or_raise {ℓ} : {A : Type ℓ} → Option A → Error → Result A
or_raise none e = err e
or_raise (some a) e = ok a

-- A chain goes on from a step that succeeded.
pub bind_ok {ℓ κ} :
    {A : Type ℓ} {B : Type κ} {m : Result A} {a : A} {r : Result B} (f : A → Result B)
    → m ≡ ok a
    → f a ≡ r
    → (m >>= f) ≡ r
bind_ok f e h = ap (bind f) e ∙ h
