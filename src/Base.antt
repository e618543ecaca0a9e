-- ===== src/Base.antt =====
-- The names that every module shares: the libraries' names, the tests on numbers and texts, the
-- operations on lists and tables, and the signed integers of `i64` fields.
mod Tests
mod Lists
mod Text
mod Ascii
pub mod Int
pub use Tests.*
pub use Lists.*
unfoldable pub use Text.*
unfoldable pub use Ascii.*
pub use Prim.Native.Nat.{ℕ, zero, suc, ◌+◌, ◌-◌, ◌*◌, ◌/◌, ◌%◌, ◌≤◌, ◌<◌, min, max}
pub use mathlib.Core.Path.{◌≡◌, refl, sym, ap, ap₂, subst, ◌∙◌, fun_ext}
pub use mathlib.Core.Logic.{◌≢◌, ◌↔◌, ◌⊎◌, inl, inr}
pub use mathlib.Core.Bool.{Bool, true, false, not, ◌&&◌, ◌||◌}
pub use mathlib.Core.Option.{Option, none, some}
pub use mathlib.Core.List.{List, [], ◌∷◌, ◌++◌, map, append_assoc, append-nil}
pub use native.Mathlib.Omega.{arith}
