-- ===== src/Prelude.antt =====
-- The names that the other modules share: those of the libraries, passed on, and those of the children:
-- Boolean tests, lists, signed integers, Go's text functions and maps, and traces of effects.
mod Tests
mod Lists
pub mod Int
pub mod Text
pub mod Sorted
pub mod Dict
pub mod Trace
pub use Tests.*
pub use Lists.*
pub use Prim.Native.Nat.{ℕ, zero, suc, ◌+◌, ◌-◌, ◌*◌, ◌/◌, ◌%◌, ◌^◌, ◌≤◌, ◌<◌, min}
pub use mathlib.Core.Path.{◌≡◌, refl, sym, ap, ap₂, ◌∙◌, subst, fun_ext}
pub use mathlib.Core.Logic.{◌≢◌, ◌↔◌, ◌⊎◌, inl, inr}
pub use mathlib.Core.Bool.{Bool, true, false, ◌&&◌, ◌||◌, not}
pub use mathlib.Core.Option.{Option, none, some}
pub use mathlib.Core.List.{List, [], ◌∷◌, ◌++◌, map, reverse, flat_map, append-nil, append_assoc}
pub use native.Mathlib.Omega.{arith}
