-- ===== src/Prelude.antt =====
-- The names that the other modules share: the libraries', passed on, and those of the children.
mod Tests
mod Lists
mod Texts
mod Results
mod Maps
mod Ascii
mod Order
mod Paths
mod Quoted
pub use Tests.*
pub use Lists.*
pub use Texts.*
pub use Results.*
pub use Maps.*
pub use Ascii.*
pub use Order.*
pub use Paths.*
pub use Quoted.*
unfoldable pub use Texts.{text_eq, join, split, decimal, trim_end_matches}
unfoldable pub use Maps.{find, put, erase, Distinct}
unfoldable pub use Ascii.{is_ascii_digit, is_ascii_alphabetic, is_ascii_alphanumeric}
unfoldable pub use Quoted.{double, read_quoted}
unfoldable pub use Paths.{
  starts_with, contains, named_parts, path_of_text, join_path, init, parent, last_name, file_name,
  prefix, path_starts_with, path_text,
}
unfoldable pub use Order.{text_ltb, insert_by, sort_by, Ascending, Unique}
pub use Prim.Native.Nat.{ℕ, zero, suc, ◌+◌, ◌-◌, ◌*◌, ◌/◌, ◌%◌, ◌^◌, ◌≤◌, ◌<◌}
pub use mathlib.Core.Path.{◌≡◌, refl, sym, ap, ap₂, ◌∙◌, subst}
pub use mathlib.Core.Logic.{◌≢◌, ◌↔◌, ◌⊎◌, inl, inr}
pub use mathlib.Core.Bool.{Bool, true, false, not, ◌&&◌, ◌||◌}
pub use mathlib.Core.Option.{Option, none, some}
pub use mathlib.Core.List.{List, [], ◌∷◌, ◌++◌, map, reverse, append-nil, append_assoc, Perm}
pub use native.Mathlib.Omega.{arith}
