-- ===== src/Base.antt =====
-- Names that every component shares: the libraries', passed on, and those of the children:
-- tests on numbers, lists with native lengths, bit operations, and the status codes of
-- include/bio_common.h.
mod Tests
mod Lists
mod Memory
mod Bits
mod Codes
mod Int
mod Text
pub use Tests.*
pub use Lists.*
pub use Memory.*
pub use Bits.*
pub use Codes.*
pub use Text.*
pub use Int.*
pub use Prim.Native.Nat.{ℕ, zero, suc, ◌+◌, ◌-◌, ◌*◌, ◌/◌, ◌%◌, ◌^◌, ◌≤◌, ◌<◌, min, bit_and, bit_or}
pub use mathlib.Core.Path.{◌≡◌, refl, sym, ap, ◌∙◌}
pub use mathlib.Core.Logic.{◌≢◌, ◌↔◌, ◌⊎◌, inl, inr}
pub use mathlib.Core.Bool.{Bool, true, false, ◌&&◌, ◌||◌, not}
pub use mathlib.Core.Option.{Option, none, some}
pub use mathlib.Core.List.{List, [], ◌∷◌, ◌++◌, append_assoc, append-nil}
pub use native.Mathlib.Omega.{arith}
