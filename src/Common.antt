-- ===== src/Common.antt =====
-- The names that the modules of the development share: the library's, passed on, and those of
-- the children (Boolean tests, lists over the native numbers, exceptions as values).
mod Tests
mod Lists
mod Control
mod Sets
mod Text
pub mod Xor
pub use Tests.*
pub use Lists.*
pub use Control.*
pub use Text.*
unfoldable pub use Sets.{contains, insert}
pub use Sets.{
  Distinct, contains-insert, contains-insert_of_mem, insert-Distinct, insert-new, All-contains_mono,
}
pub use Prim.Native.Nat.{
  ℕ, zero, suc, ◌+◌, ◌-◌, ◌*◌, ◌/◌, ◌%◌, ◌^◌, ◌≤◌, ◌<◌, min, bit_and, bit_xor,
}
pub use mathlib.Core.Path.{◌≡◌, refl, sym, ap, ap₂, ◌∙◌}
pub use mathlib.Core.Logic.{◌≢◌, ◌↔◌, ◌⊎◌, inl, inr}
pub use mathlib.Core.Bool.{Bool, true, false, not, ◌&&◌, ◌||◌}
pub use mathlib.Core.Option.{Option, none, some}
pub use mathlib.Core.List.{List, [], ◌∷◌, ◌++◌, map, append-nil, append_assoc}
pub use native.Mathlib.Omega.{arith}
