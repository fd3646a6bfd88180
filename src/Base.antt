-- ===== src/Base.antt =====
-- Names that all modules share: the library's, passed on, and those of the children, which model
-- what the Go code uses of its language (integers, slices, texts).
mod Tests
mod Lists
mod Int
mod Slices
mod Tables
pub use Tests.*
pub use Lists.*
unfoldable pub use Tables.*
unfoldable pub use Int.*
unfoldable pub use Slices.*
pub use Prim.Native.Nat.{ℕ, zero, suc, ◌+◌, ◌-◌, ◌*◌, ◌/◌, ◌%◌, ◌^◌, ◌≤◌, ◌<◌}
pub use mathlib.Core.Path.{◌≡◌, refl, sym, ap, ◌∙◌}
pub use mathlib.Core.Logic.{◌≢◌, ◌↔◌, ◌⊎◌, inl, inr}
pub use mathlib.Core.Bool.{Bool, true, false, not, ◌&&◌, ◌||◌}
pub use mathlib.Core.Option.{Option, none, some}
pub use mathlib.Core.List.{List, [], ◌∷◌, ◌++◌, map}
pub use native.Mathlib.Omega.{arith}
