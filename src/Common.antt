-- ===== src/Common.antt =====
-- Shared names: the libraries', passed on, with Boolean tests, results, lists and byte arrays.
mod Tests
mod Lists
mod Results
mod Words
mod Arrays
pub mod Bits
pub use Tests.*
pub use Lists.*
pub use Results.*
pub use Words.*
pub use Arrays.*
unfoldable pub use Arrays.{to_vec, copy_from_slice}
pub use Prim.Native.Nat.{ℕ, zero, suc, ◌+◌, ◌-◌, ◌*◌, ◌/◌, ◌%◌, ◌^◌, ◌≤◌, ◌<◌, bit_or, bit_xor}
pub use mathlib.Core.Path.{◌≡◌, refl, sym, ap, ◌∙◌, subst}
pub use mathlib.Core.Logic.{◌≢◌, ◌↔◌, ◌⊎◌, inl, inr}
pub use mathlib.Core.Bool.{Bool, true, false, not, ◌&&◌, ◌||◌}
pub use mathlib.Core.Option.{Option, none, some}
pub use mathlib.Core.List.{List, [], ◌∷◌, ◌++◌, append_assoc, append-nil}
pub use native.Mathlib.Omega.{arith}
