-- ===== src/Toolkit/Pagination/Identifiers.antt =====
-- pagination.rs, `validate_column_name` and `quote_identifier`.
pub mod Quoting
pub mod Names
use tauri_plugin_sqlite.Prelude.{
  ℕ, Bool, true, false, not, ◌&&◌, ◌||◌, List, [], ◌∷◌, ◌++◌, map, Text, split, join, leb, ◌==◌,
  if◌then◌else◌, any, all, is_empty, Result, ok, err, double, is_ascii_digit, is_ascii_alphabetic,
  is_ascii_alphanumeric,
}
use tauri_plugin_sqlite.Toolkit.{Error, invalid_column_name}

abbrev pub dot : ℕ
dot = b'.'

-- The loop over the characters after the first.
abbrev pub is_name_char : ℕ → Bool
is_name_char ch = is_ascii_alphanumeric ch || (ch == b'_' || ch == dot)

unfoldable pub validate_column_name : Text → Result Error (Unit {0})
validate_column_name [] = err (invalid_column_name [])
validate_column_name (first ∷ chars) =
    let name = first ∷ chars in
    if not (is_ascii_alphabetic first) && not (first == b'_')
    then err (invalid_column_name name)
    else if any (λ ch. not (is_name_char ch)) chars
    then err (invalid_column_name name)
    else if any is_empty (split dot name)
    then err (invalid_column_name name)
    else ok tt

abbrev pub quote_char : ℕ
quote_char = 34

-- `part.replace('"', "\"\"")`
unfoldable pub escape : Text → Text
unfolding double
escape part = double quote_char part

unfoldable pub quote_part : Text → Text
unfolding escape
quote_part part = quote_char ∷ (escape part ++ (quote_char ∷ []))

unfoldable pub quote_identifier : Text → Text
quote_identifier name = join (dot ∷ []) (map quote_part (split dot name))
