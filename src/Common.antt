-- ===== src/Common.antt =====
-- The names that the other modules share: the libraries', passed on, and those of the children.
mod Tests
mod Lists
mod Texts
pub mod Sort
pub mod Dict
pub mod Int
unfoldable pub use Tests.*
unfoldable pub use Lists.{unique}
pub use Lists.{
  length, get_elem?, take, drop, any, all, filter, find, length-append, length-take-le,
  filter-append, any-append, take-drop, drop-append, drop-short, length-filter-le, All, All-append,
  All-map, All-filter, All-take, All-remove, All-imp, All-filter_self, filter-all, includes, count,
  count-append, includes-filter, includes-unique,
}
unfoldable pub use Texts.{
  is_empty, or_else, is_space, trim_start, trim, join, starts_with, contains, index_of, split,
  to_lower_ascii, text_before,
}
pub use Texts.{split-append}
pub use Prim.Native.Nat.{ℕ, zero, suc, ◌+◌, ◌-◌, ◌*◌, ◌/◌, ◌%◌, ◌≤◌, ◌<◌, min, max}
pub use mathlib.Core.Path.{◌≡◌, refl, sym, ap, ap₂, ◌∙◌, subst, ◌≡⟨◌⟩◌, ◌∎}
pub use mathlib.Core.Logic.{◌≢◌, ◌↔◌, ◌⊎◌, inl, inr}
pub use mathlib.Core.Bool.{Bool, true, false, not, ◌&&◌, ◌||◌}
pub use mathlib.Core.Option.{Option, none, some}
pub use mathlib.Core.List.{List, [], ◌∷◌, ◌++◌, map, append-nil, append_assoc, map-append}
pub use native.Mathlib.Omega.{arith}
