-- ===== src/Base.antt =====
-- Names that every module shares: the libraries', passed on, and those of the children. The
-- children are tests on numbers, lists over the native numbers, their slices, exceptions as results,
-- bit operations as arithmetic, and signed integers.
mod Tests
mod Lists
mod Slices
mod Exceptions
pub mod Bits
pub mod Int
pub mod Tables
pub use Tests.*
pub use Lists.*
pub use Slices.*
pub use Exceptions.*
pub use Prim.Native.Nat.{ℕ, zero, suc, ◌+◌, ◌-◌, ◌*◌, ◌/◌, ◌%◌, ◌^◌, ◌≤◌, ◌<◌, min}
pub use mathlib.Core.Path.{◌≡◌, refl, sym, ap, ap₂, subst, subst₂, ◌∙◌, ◌≡⟨◌⟩◌, ◌∎}
pub use mathlib.Core.Logic.{◌≢◌, ◌↔◌, ◌⊎◌, inl, inr}
pub use mathlib.Core.Bool.{Bool, true, false, not, ◌&&◌, ◌||◌}
pub use mathlib.Core.Option.{Option, none, some}
pub use mathlib.Core.List.{List, [], ◌∷◌, ◌++◌, map, append-nil, append_assoc}
pub use native.Mathlib.Omega.{arith}
