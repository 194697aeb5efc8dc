-- ===== src/Common.antt =====
-- Names and lemmas that the components share: the libraries', passed on, and those of the children.
mod Tests
mod Lists
pub mod Assoc
pub mod Int64
pub mod Outcome
pub mod Strings
unfoldable pub use Tests.*
pub use Lists.*
pub use Prim.Native.Nat.{ℕ, zero, suc, ◌+◌, ◌-◌, ◌*◌, ◌/◌, ◌%◌, ◌^◌, ◌≤◌, ◌<◌}
pub use mathlib.Core.Path.{◌≡◌, refl, sym, ap, ◌∙◌}
pub use mathlib.Core.Logic.{◌≢◌, ◌↔◌, ◌⊎◌, inl, inr}
pub use mathlib.Core.Bool.{Bool, true, false, not, ◌&&◌, ◌||◌}
pub use mathlib.Core.Option.{Option, none, some}
pub use mathlib.Core.List.{List, [], ◌∷◌, ◌++◌, map}
pub use native.Mathlib.Omega.{arith}
unfoldable pub use mathlib.Core.List.{lookup}
unfoldable pub use mathlib.Core.Logic.{ite}
unfoldable pub use native.Mathlib.Decide.{dec_lt, dec_le, ℕ_discrete}
