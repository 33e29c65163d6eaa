-- ===== src/Common.antt =====
-- Names and helpers that the modules share: tests on numbers, lists measured by native numbers,
-- and runs of code that may throw.
mod Tests
mod Lists
mod Runs
pub mod Keeps
pub mod Halts
pub mod Words
pub mod Bits
pub mod Text
pub mod Int
pub use Tests.*
pub use Lists.*
pub use Runs.*
pub use Prim.Native.Nat.{ℕ, zero, suc, ◌+◌, ◌-◌, ◌*◌, ◌/◌, ◌%◌, ◌^◌, ◌≤◌, ◌<◌}
pub use mathlib.Core.Path.{◌≡◌, refl, sym, ap, ◌∙◌}
pub use mathlib.Core.Logic.{◌≢◌, ◌↔◌, ◌⊎◌, inl, inr}
pub use mathlib.Core.Bool.{Bool, true, false, not, ◌&&◌, ◌||◌}
pub use mathlib.Core.Option.{Option, none, some}
pub use mathlib.Core.List.{List, [], ◌∷◌, ◌++◌, append-nil, append_assoc, reverse}
pub use native.Mathlib.Omega.{arith}
