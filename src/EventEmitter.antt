-- ===== src/EventEmitter.antt =====
-- cam_reverse/event_emitter.py: the listeners of each event, in the order of registration. A
-- listener is told apart by a number; what it does is the parameter `call`.
use cam_reverse_py.Base.{
  ℕ, ◌≡◌, refl, sym, ap, ◌∙◌, subst, Bool, true, false, List, [], ◌∷◌, ◌++◌, Text, text_eq,
  text_eq_refl, text_eq→eq, ◌==◌, ==_refl, if◌then◌else◌, Bool-cases, inl, inr, arith, Result, ok,
  err,
}
use cam_reverse_py.State.{State, Action, Done, for_each, pure, continue_with, ◌>>◌}
use cam_reverse_py.State.Runs.{for_each-append, for_each_one}

-- `_listeners`: a dictionary that makes an empty entry for a key that it does not have.
abbrev pub Listeners : Type 0
Listeners = List (Text × List ℕ)

abbrev pub listeners_of : Text → Listeners → List ℕ
listeners_of event [] = []
listeners_of event ((e, ls) ∷ m) = if text_eq e event then ls else listeners_of event m

abbrev pub set_listeners : Text → List ℕ → Listeners → Listeners
set_listeners event new [] = (event, new) ∷ []
set_listeners event new ((e, ls) ∷ m) =
    if text_eq e event then (e, new) ∷ m else (e, ls) ∷ set_listeners event new m

-- `list.remove`, where a value that is not there is no error.
abbrev pub without_first : ℕ → List ℕ → List ℕ
without_first cb [] = []
without_first cb (l ∷ ls) = if l == cb then ls else l ∷ without_first cb ls

unfoldable pub on : Text → ℕ → Listeners → Listeners
on event cb m = set_listeners event (listeners_of event m ++ cb ∷ []) m

unfoldable pub off : Text → ℕ → Listeners → Listeners
off event cb m = set_listeners event (without_first cb (listeners_of event m)) m

abbrev has_any : List ℕ → Bool
has_any [] = false
has_any (l ∷ ls) = true

module _ {App : Type 0} (call : ℕ → Action App Done) where
  unfoldable pub emit : Text → Listeners → Action App Bool
  emit event m = for_each (listeners_of event m) call >> pure (has_any (listeners_of event m))

listeners-set_same :
    (event : Text) (new : List ℕ) (m : Listeners)
    → listeners_of event (set_listeners event new m) ≡ new
listeners-set_same event new [] = rw text_eq_refl
listeners-set_same event new ((e, ls) ∷ m) = elim (Bool-cases (text_eq e event)) [
  | inl same ↦ rw (same, same)
  | inr differ ↦ rw (differ, differ) (listeners-set_same event new m)
]

listeners-set_other :
    (event other : Text) (new : List ℕ) (m : Listeners)
    → text_eq event other ≡ false
    → listeners_of other (set_listeners event new m) ≡ listeners_of other m
listeners-set_other event other new [] h = rw h
listeners-set_other event other new ((e, ls) ∷ m) h = elim (Bool-cases (text_eq e event)) [
  | inl same ↦
      (let differ = subst (λ t. text_eq t other ≡ false) (sym (text_eq→eq e event same)) h in
        rw (same, differ))
  | inr differ ↦
      rw differ
        (ap (λ l. if text_eq e other then ls else l) (listeners-set_other event other new m h))
]

-- Whether a listener is registered.
abbrev pub is_member : ℕ → List ℕ → Bool
is_member cb [] = false
is_member cb (l ∷ ls) = if l == cb then true else is_member cb ls

without_first-append :
    (cb : ℕ) (ls : List ℕ) → is_member cb ls ≡ false → without_first cb (ls ++ cb ∷ []) ≡ ls
without_first-append cb [] h = rw ==_refl
without_first-append cb (l ∷ ls) h = ground (arith, without_first-append cb ls)

-- `on` and then `off` of a listener that the event did not have leave the listeners of every event as
-- they were.
pub off-on :
    (event other : Text) (cb : ℕ) (m : Listeners)
    → is_member cb (listeners_of event m) ≡ false
    → text_eq event other ≡ false
    → (listeners_of event (off event cb (on event cb m)) ≡ listeners_of event m)
      × (listeners_of other (off event cb (on event cb m)) ≡ listeners_of other m)
unfolding on off
off-on event other cb m new differ =
    let added = listeners_of event m ++ cb ∷ [] in
    (
      listeners-set_same event _ (set_listeners event added m)
          ∙ ap (without_first cb) (listeners-set_same event added m)
          ∙ without_first-append cb (listeners_of event m) new,
      listeners-set_other event other _ (set_listeners event added m) differ
          ∙ listeners-set_other event other added m differ,
    )

has_any-append : (ls : List ℕ) (cb : ℕ) → has_any (ls ++ cb ∷ []) ≡ true
has_any-append [] cb = refl
has_any-append (l ∷ ls) cb = refl

last_runs :
    {App : Type 0} (call : ℕ → Action App Done) (cb : ℕ) (p : Result Done × State App)
    → continue_with (continue_with p (λ _. for_each (cb ∷ []) call)) (λ _. pure true)
      ≡ continue_with p (λ _. call cb >> pure true)
last_runs call cb (ok a, s) = ap (λ q. continue_with q (λ _. pure true)) (for_each_one cb call s)
last_runs call cb (err e, s) = refl

-- `emit` after `on`: the listeners that the event had run first, in their order; where one of them
-- raises, the emission ends there with it; otherwise the new listener runs last, and where it does not
-- raise `emit` returns True.
pub emit-on :
    {App : Type 0} (call : ℕ → Action App Done) (event : Text) (cb : ℕ) (m : Listeners)
    (s : State App)
    → emit call event (on event cb m) s
      ≡ continue_with (for_each (listeners_of event m) call s) (λ _. call cb >> pure true)
unfolding emit on
emit-on call event cb m s =
    let ls = listeners_of event m in
    ap (λ l. (for_each l call >> pure (has_any l)) s) (listeners-set_same event (ls ++ cb ∷ []) m)
    ∙ ap (λ b. (for_each (ls ++ cb ∷ []) call >> pure b) s) (has_any-append ls cb)
    ∙ ap (λ p. continue_with p (λ _. pure true)) (for_each-append ls (cb ∷ []) call s)
    ∙ last_runs call cb (for_each ls call s)
