-- ===== src/Prelude.antt =====
-- Names that every module shares: those of the libraries, passed on, and those of three children.
mod Tests
mod Lists
mod Chars
mod Dicts
mod Int
pub use Tests.*
unfoldable pub use Dicts.{lookup, insert, remove}
pub use Dicts.{Dict, lookup-insert, lookup-remove, dict_laws}
pub use Int.*
pub use Lists.*
unfoldable pub use Chars.{
  same, starts_with, contains, is_space, lstrip, strip, lower, member, join_with, text_less, sorted,
}
pub use Chars.{Text, codes, join_lines, same_iff, same_refl, text_laws}
pub use Prim.Native.Nat.{ℕ, zero, suc, ◌+◌, ◌-◌, ◌*◌, ◌/◌, ◌%◌, ◌≤◌, ◌<◌, min, max}
pub use mathlib.Core.Path.{◌≡◌, refl, sym, ap, ◌∙◌}
pub use mathlib.Core.Logic.{◌≢◌, ◌↔◌, ◌⊎◌, inl, inr}
pub use mathlib.Core.Bool.{Bool, true, false, not, ◌&&◌, ◌||◌}
pub use mathlib.Core.Option.{Option, none, some}
pub use mathlib.Core.List.{List, [], ◌∷◌, ◌++◌, map, reverse}
pub use native.Mathlib.Omega.{arith}
