-- ===== src/Datatypes/Lookup.antt =====
-- The two dictionaries of outer commands are inverse to one another.
use cam_reverse_py.Base.{
  ℕ, ◌≡◌, refl, subst, Bool-cases, inl, inr, ==_iff, ◌↔◌, some, arith, ◌==◌, List, [], ◌∷◌,
}
use mathlib.Core.Option.{some-injective}
use cam_reverse_py.Datatypes.{
  Command, close, command_value, find_command, commands_by_value, all_commands,
}

find_command_sound :
    (raw : ℕ) (cs : List Command) (c : Command)
    → find_command raw cs ≡ some c
    → command_value c ≡ raw
find_command_sound raw [] c h = ground arith
find_command_sound raw (d ∷ cs) c h = elim (Bool-cases (command_value d == raw)) [
  | inl e ↦ subst (λ x. command_value x ≡ raw) (some-injective d c (rw e at h)) ((==_iff _ raw).0 e)
  | inr e ↦ find_command_sound raw cs c (rw e at h)
]

find_command_own : (c : Command) → find_command (command_value c) all_commands ≡ some c
find_command_own close = refl
find_command_own _ = refl

-- A number is found as a command exactly when it is the number of that command; so no two commands
-- share a number.
pub commands_by_value_iff :
    (raw : ℕ) (c : Command) → (commands_by_value raw ≡ some c) ↔ (command_value c ≡ raw)
unfolding commands_by_value
commands_by_value_iff raw c = (
  find_command_sound raw all_commands c,
  λ e. subst (λ v. find_command v all_commands ≡ some c) e (find_command_own c),
)
