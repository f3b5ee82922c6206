-- ===== src/Common.antt =====
-- Names, tests, lists and numbers that the models of the kernels and of the host code share.
mod Tests
mod Lists
pub mod Int
pub mod Bits
pub mod Float
pub mod Launch
pub mod Steps
pub mod Rows
pub mod Sums
pub mod Search
pub mod Words
pub use Tests.*
pub use Lists.*
pub use Prim.Native.Nat.{
  ℕ, zero, suc, ◌+◌, ◌-◌, ◌*◌, ◌/◌, ◌%◌, ◌^◌, ◌≤◌, ◌<◌, min, max, bit_and, bit_or, bit_xor,
}
pub use mathlib.Core.Path.{◌≡◌, refl, sym, ap, ap₂, ◌∙◌}
pub use mathlib.Core.Logic.{◌≢◌, ◌↔◌, ◌⊎◌, inl, inr}
pub use mathlib.Core.Bool.{Bool, true, false, not, ◌&&◌, ◌||◌}
pub use mathlib.Core.Option.{Option, none, some}
pub use mathlib.Core.List.{List, [], ◌∷◌, ◌++◌, map}
pub use native.Mathlib.Omega.{arith}
unfoldable pub use Tests.{holds_below}
unfoldable pub use native.Mathlib.Decide.{dec_lt, dec_le, ℕ_discrete}
