-- ===== src/State/Runs.antt =====
-- How a chain of actions runs on from a step that succeeded or raised.
use cam_reverse_py.Base.{List, [], ◌∷◌, ◌++◌, ◌≡◌, refl, ap, Result, ok, err, Error}
use cam_reverse_py.State.{State, Action, Done, for_each, continue_with, ◌>>=◌}

module _ {App A B : Type 0} where
  pub then_ok :
      (m : Action App A) (f : A → Action App B) {s s' : State App} {a : A}
      → m s ≡ (ok a, s')
      → (m >>= f) s ≡ f a s'
  then_ok m f e = ap (λ p. continue_with p f) e

  pub then_err :
      (m : Action App A) (f : A → Action App B) {s s' : State App} {x : Error}
      → m s ≡ (err x, s')
      → (m >>= f) s ≡ (err x, s')
  then_err m f e = ap (λ p. continue_with p f) e

module _ {App : Type 0} where
  done_last : (p : Result Done × State App) → continue_with p (λ _ s. (ok tt, s)) ≡ p
  done_last (ok a, s) = refl
  done_last (err e, s) = refl

module _ {App A : Type 0} where
  pub for_each_step :
      (x : A) (xs : List A) (f : A → Action App Done) (s : State App) {s' : State App}
      → f x s ≡ (ok tt, s')
      → for_each (x ∷ xs) f s ≡ for_each xs f s'
  for_each_step x xs f s e = ap (λ p. continue_with p (λ _. for_each xs f)) e

  for_each-append_step :
      (xs ys : List A) (f : A → Action App Done) (p : Result Done × State App)
      → ((s : State App)
          → for_each (xs ++ ys) f s ≡ continue_with (for_each xs f s) (λ _. for_each ys f))
      → continue_with p (λ _. for_each (xs ++ ys) f)
        ≡ continue_with (continue_with p (λ _. for_each xs f)) (λ _. for_each ys f)
  for_each-append_step xs ys f (ok a, s) ih = ih s
  for_each-append_step xs ys f (err e, s) ih = refl

  pub for_each-append :
      (xs ys : List A) (f : A → Action App Done) (s : State App)
      → for_each (xs ++ ys) f s ≡ continue_with (for_each xs f s) (λ _. for_each ys f)
  for_each-append [] ys f s = refl
  for_each-append (x ∷ xs) ys f s = for_each-append_step xs ys f (f x s) (for_each-append xs ys f)

  pub for_each_one :
      (x : A) (f : A → Action App Done) (s : State App) → for_each (x ∷ []) f s ≡ f x s
  for_each_one x f s = done_last (f x s)
