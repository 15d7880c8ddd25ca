-- ===== src/Base.antt =====
-- Shared vocabulary of the development: the library names in use, passed on, and the helpers of
-- the children. `Text` and `Bytes` are lists of native numbers.
mod Tests
mod Lists
mod Fallible
mod Strings
pub mod Int
pub mod Map
unfoldable pub use Tests.*
unfoldable pub use Lists.*
unfoldable pub use Fallible.*
unfoldable pub use Strings.*
pub use Prim.Native.Nat.{ℕ, zero, suc, ◌+◌, ◌-◌, ◌*◌, ◌/◌, ◌%◌, ◌^◌, ◌≤◌, ◌<◌, min}
pub use Prim.Native.String.{String}
pub use mathlib.Core.Path.{◌≡◌, refl, sym, ap, ◌∙◌, ◌≡⟨◌⟩◌, ◌∎}
pub use mathlib.Core.Logic.{◌≢◌, ◌↔◌, ◌⊎◌, inl, inr}
pub use mathlib.Core.Bool.{Bool, true, false, not, ◌&&◌, ◌||◌}
pub use mathlib.Core.Option.{Option, none, some}
pub use mathlib.Core.List.{List, [], ◌∷◌, ◌++◌, map}
pub use native.Mathlib.Omega.{arith}
