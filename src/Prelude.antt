-- ===== src/Prelude.antt =====
-- What the modules of the library share: names of the libraries, tests on numbers, lists measured
-- by the native numbers, and the error values of errors.js.
pub mod Tests
pub mod Lists
pub mod Octets
pub mod Errors
pub mod Dict
pub mod Action
pub mod Hoare
pub mod Entries
pub use Tests.*
pub use Lists.*
pub use Octets.{Bytes, IsByte, IsBytes}
pub use Errors.*
pub use Prim.Native.Nat.{ℕ, zero, suc, ◌+◌, ◌-◌, ◌*◌, ◌/◌, ◌%◌, ◌^◌, ◌≤◌, ◌<◌, min, max}
pub use Prim.Native.String.{String}
pub use mathlib.Core.Path.{◌≡◌, refl, sym, ap, ap₂, ◌∙◌, subst}
pub use mathlib.Core.Logic.{◌≢◌, ◌↔◌, ◌⊎◌, inl, inr}
pub use mathlib.Core.Bool.{Bool, true, false, ◌&&◌, ◌||◌, not}
pub use mathlib.Core.Option.{Option, none, some}
pub use mathlib.Core.List.{List, [], ◌∷◌, ◌++◌, map, append_assoc, append-nil}
pub use native.Mathlib.Omega.{arith}
