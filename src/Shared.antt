-- ===== src/Shared.antt =====
-- The names that the other modules share: the libraries', passed on, the tests on numbers and
-- texts, lists as Go's slices, and association lists as Go's maps.
pub mod Tests
pub mod Slices
pub mod GoMap
pub mod Counting
pub mod Int
pub mod Elements
pub mod Members
pub mod Texts
pub mod Sorting
pub mod Numerals
pub mod Cutting
pub use Tests.*
pub use Prim.Native.Nat.{ℕ, zero, suc, ◌+◌, ◌-◌, ◌*◌, ◌/◌, ◌%◌, ◌≤◌, ◌<◌}
pub use Prim.Native.String.{String}
pub use mathlib.Core.Path.{◌≡◌, refl, sym, ap, subst, ◌∙◌}
pub use mathlib.Core.Logic.{◌≢◌, ◌↔◌, ◌⊎◌, inl, inr}
pub use mathlib.Core.Bool.{Bool, true, false, ◌&&◌, ◌||◌, not}
pub use mathlib.Core.Option.{Option, none, some}
pub use mathlib.Core.List.{List, [], ◌∷◌, ◌++◌, map}
pub use native.Mathlib.Omega.{arith}
