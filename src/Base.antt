-- ===== src/Base.antt =====
-- What the other modules share: the libraries' names, passed on, the tests and branches of the
-- source, its integer types as native numbers, its asserts as a result type, its tables as
-- functions, and the algebra of `&` and `|`.
mod Logic
mod Word
mod Int
mod Outcome
mod Table
mod Bits
pub use Logic.*
pub use Word.*
pub use Int.*
pub use Outcome.*
pub use Table.*
pub use Bits.*
pub use Prim.Native.Nat.{ℕ, zero, suc, ◌+◌, ◌-◌, ◌*◌, ◌/◌, ◌%◌, ◌^◌, ◌≤◌, ◌<◌}
pub use Prim.Native.Nat.{bit_and, bit_or, bit_xor}
pub use mathlib.Core.Path.{◌≡◌, refl, sym, ap, ap₂, ◌∙◌}
pub use mathlib.Core.Logic.{◌≢◌, ◌↔◌, ◌⊎◌, inl, inr}
pub use mathlib.Core.Bool.{Bool, true, false, not, ◌&&◌, ◌||◌}
unfoldable pub use mathlib.Core.Bool.{xor}
pub use mathlib.Core.Option.{Option, none, some}
pub use mathlib.Core.List.{List, [], ◌∷◌, ◌++◌}
pub use native.Mathlib.Omega.{arith}
