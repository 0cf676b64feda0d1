-- ===== src/Common.antt =====
-- The names that the other modules share: the libraries', passed on, and those of the children
-- (Boolean tests, lists over native numbers, bytes, and the bit operations of machine words).
mod Tests
mod Lists
mod Octets
mod Options
pub mod Bits
pub use Tests.{ltb, leb, ◌==◌, within, if◌then◌else◌, ltb→lt, lt→ltb, leb→le, ==_iff}
pub use Tests.{Bool-cases, Option-cases, all_below_sound}
unfoldable pub use Tests.{all_below}
pub use Lists.*
pub use Options.{OnSome, OnSome-bind, OnSome-all}
pub use Octets.{Bytes, codes, IsByte, IsBytes, are_bytes, bytes_eq_iff}
unfoldable pub use Octets.{bytes_eq}
pub use Prim.Native.Nat.{ℕ, zero, suc, ◌+◌, ◌-◌, ◌*◌, ◌/◌, ◌%◌, ◌^◌, ◌≤◌, ◌<◌, min, max}
pub use Prim.Native.Nat.{bit_and, bit_or, bit_xor}
pub use mathlib.Core.Path.{◌≡◌, refl, sym, ap, ◌∙◌, subst, fun_ext}
pub use mathlib.Core.Logic.{◌≢◌, ◌↔◌, ◌⊎◌, inl, inr}
pub use mathlib.Core.Bool.{Bool, true, false, not, ◌&&◌, ◌||◌, false≢true}
pub use mathlib.Core.Option.{Option, none, some, some-injective}
pub use mathlib.Core.List.{List, [], ◌∷◌, append_assoc, append-nil}
unfoldable pub use mathlib.Core.List.{◌++◌, map, flat_map, reverse}
pub use native.Mathlib.Omega.{arith}
