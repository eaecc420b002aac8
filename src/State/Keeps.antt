-- ===== src/State/Keeps.antt =====
-- Rules for what an action keeps, whether it returns or raises, and what holds of its result.
use cam_reverse_py.Base.{Bool, true, false, List, [], ◌∷◌, if◌then◌else◌, Result, ok, err}
use cam_reverse_py.State.{
  State, Session, Action, Done, pure, lift, gets, for_each, continue_with, ◌>>=◌,
}

module _ {App : Type 0} (P : State App → Type 0) where
  -- `P` holds in the state after a call, and `Q` of what it returned.
  abbrev pub Post : {A : Type 0} → (A → State App → Type 0) → Result A × State App → Type 0
  Post Q (ok a, s) = P s × Q a s
  Post Q (err e, s) = P s

  abbrev pub Yields : {A : Type 0} → Action App A → (A → State App → Type 0) → Type 0
  Yields m Q = (s : State App) → P s → Post Q (m s)

  abbrev pub Anything : {A : Type 0} → A → State App → Type 0
  Anything a s = Unit {0}

  abbrev pub Keeps : {A : Type 0} → Action App A → Type 0
  Keeps m = Yields m Anything

  pub Post-state :
      {A : Type 0} (Q : A → State App → Type 0) (p : Result A × State App) → Post Q p → P p.1
  Post-state Q (ok a, s) h = h.0
  Post-state Q (err e, s) h = h

  pub Post-continue :
      {A B : Type 0} (Q : A → State App → Type 0) (R : B → State App → Type 0)
      (p : Result A × State App) (f : A → Action App B)
      → Post Q p
      → ((a : A) (s : State App) → P s → Q a s → Post R (f a s))
      → Post R (continue_with p f)
  Post-continue Q R (ok a, s) f h k = k a s h.0 h.1
  Post-continue Q R (err e, s) f h k = h

  -- A step whose result carries a promise to the rest.
  pub yields-then :
      {A B : Type 0} (Q : A → State App → Type 0) (R : B → State App → Type 0) (m : Action App A)
      (f : A → Action App B)
      → Yields m Q
      → ((a : A) (s : State App) → P s → Q a s → Post R (f a s))
      → Yields (m >>= f) R
  yields-then Q R m f hm hf s p = Post-continue Q R (m s) f (hm s p) hf

  pub Keeps-bind :
      {A B : Type 0} (R : B → State App → Type 0) (m : Action App A) (f : A → Action App B)
      → Keeps m
      → ((a : A) → Yields (f a) R)
      → Yields (m >>= f) R
  Keeps-bind R m f hm hf = yields-then Anything R m f hm (λ a s p _. hf a s p)

  pub Keeps-lift : {A : Type 0} (r : Result A) → Keeps (lift r)
  Keeps-lift (ok a) s p = (p, tt)
  Keeps-lift (err e) s p = p

  pub Keeps-pure : {A : Type 0} (a : A) → Keeps (pure a)
  Keeps-pure a s p = (p, tt)

  pub Keeps-gets : {A : Type 0} (f : Session → A) → Keeps (gets f)
  Keeps-gets f s p = (p, tt)

  pub Keeps-if :
      {A : Type 0} (Q : A → State App → Type 0) (b : Bool) (m k : Action App A)
      → Yields m Q
      → Yields k Q
      → Yields (if b then m else k) Q
  Keeps-if Q true m k hm hk = hm
  Keeps-if Q false m k hm hk = hk

  pub Keeps-for_each :
      {A : Type 0} (xs : List A) (f : A → Action App Done)
      → ((a : A) → Keeps (f a))
      → Keeps (for_each xs f)
  Keeps-for_each [] f h s p = (p, tt)
  Keeps-for_each (x ∷ xs) f h s p =
      Keeps-bind Anything (f x) (λ _. for_each xs f) (h x) (λ _. Keeps-for_each xs f h) s p
