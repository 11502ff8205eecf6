-- ===== src/Base.antt =====
-- The names that the other modules share: Boolean tests on the native numbers, lists measured by
-- them, predicates on lists, integers, byte strings, maps, and the libraries' own names, passed on.
mod Tests
mod Lists
mod Integers
mod Bytes
mod Maps
pub use Tests.*
pub use Lists.*
pub use Integers.*
pub use Bytes.*
unfoldable pub use Maps.*
pub use Prim.Native.Nat.{ℕ, zero, suc, ◌+◌, ◌-◌, ◌*◌, ◌/◌, ◌%◌, ◌^◌, ◌≤◌, ◌<◌, min, max}
pub use mathlib.Core.Path.{◌≡◌, refl, sym, ap, ◌∙◌, subst}
pub use mathlib.Core.Logic.{◌≢◌, ◌↔◌, ◌⊎◌, inl, inr}
pub use mathlib.Core.Bool.{Bool, true, false, not, ◌&&◌, ◌||◌}
pub use mathlib.Core.Option.{Option, none, some}
pub use mathlib.Core.List.{List, [], ◌∷◌, ◌++◌, map}
pub use native.Mathlib.Omega.{arith}
