-- ===== src/Base.antt =====
-- The names that the modules share: the libraries', passed on, and those of the children.
mod Tests
mod Lists
mod Slices
mod Bytes
mod Effects
mod Strings
mod Runes
pub use Tests.*
pub use Lists.*
pub use Slices.*
pub use Bytes.*
pub use Effects.*
pub use Strings.*
pub use Runes.*
unfoldable pub use Effects.{pure, throw, reads, guard, transact, ◌>>=◌}
unfoldable pub use Lists.{filter, any}
unfoldable pub use Slices.{splice}
unfoldable pub use Bytes.{text_eq}
unfoldable pub use Strings.{
  itoa, itoa_onto, split_lines, join_lines, trim_space, trim_right_newlines,
}
unfoldable pub use Runes.{runes, trunc_runes, text_lt}
pub use Prim.Native.Nat.{ℕ, zero, suc, ◌+◌, ◌-◌, ◌*◌, ◌/◌, ◌%◌, ◌^◌, ◌≤◌, ◌<◌}
pub use mathlib.Core.Path.{◌≡◌, refl, sym, ap, ap₂, subst, ◌∙◌}
pub use mathlib.Core.Logic.{◌≢◌, ◌↔◌, ◌⊎◌, inl, inr}
pub use mathlib.Core.Bool.{Bool, true, false, not, ◌&&◌, ◌||◌}
pub use mathlib.Core.Option.{Option, none, some}
pub use mathlib.Core.List.{List, [], ◌∷◌, ◌++◌, map, reverse, append_assoc, append-nil}
pub use native.Mathlib.Omega.{arith}
