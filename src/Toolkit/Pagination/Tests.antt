-- ===== src/Toolkit/Pagination/Tests.antt =====
-- The theorems on pagination at concrete queries and names.
use tauri_plugin_sqlite.Prelude.{
  is_ascii_alphabetic, is_ascii_alphanumeric, ℕ, ◌≡◌, ◌≢◌, ◌↔◌, refl, false, List, [], ◌∷◌, ◌++◌,
  Option, none, some, arith, Text, codes, length, split, ok, text_eq, join, decimal, ltb, ◌&&◌,
  trim_end_matches,
}
use tauri_plugin_sqlite.Toolkit.Pagination.{ascending, descending, KeysetColumn}
use tauri_plugin_sqlite.Toolkit.Pagination.Identifiers.{
  validate_column_name, dot, quote_identifier, quote_part,
}
use tauri_plugin_sqlite.Toolkit.Pagination.Identifiers.Names.{
  IsColumnName, validate_column_name_iff,
}
use tauri_plugin_sqlite.Toolkit.Pagination.Identifiers.Quoting.{
  read_name, read_name-quote_identifier,
}
use tauri_plugin_sqlite.Toolkit.Pagination.Scan.{
  to_uppercase, skip_whitespace, is_ascii_whitespace, byte_at, scan_top_level, validate_base_query,
  has_top_level_where,
}
use tauri_plugin_sqlite.Toolkit.Pagination.Scan.Termination.{scan_top_level-ne-none}
use tauri_plugin_sqlite.Toolkit.Pagination.Condition.{build_cursor_condition}
use tauri_plugin_sqlite.Toolkit.Pagination.Condition.Meaning.{
  Selects, build_cursor_condition-Selects,
}
use tauri_plugin_sqlite.Toolkit.Pagination.Query.{build_paginated_query}

validate_column_name_iff_example :
    (validate_column_name (codes "posts.id") ≡ ok tt) ↔ IsColumnName (codes "posts.id")
validate_column_name_iff_example = validate_column_name_iff (codes "posts.id")

abbrev odd_name : Text
odd_name = codes "a\"b.c"

read_name-quote_identifier_example :
    read_name (length (split dot odd_name)) (quote_identifier odd_name ++ codes " ASC")
    ≡ some (split dot odd_name, codes " ASC")
read_name-quote_identifier_example =
    read_name-quote_identifier odd_name (codes " ASC") (omega arith) (omega arith)

abbrev nested : Text
nested = codes "SELECT (SELECT 1 LIMIT 1) -- WHERE"

abbrev first_byte : Text → ℕ → ℕ → Option ℕ
first_byte bytes len i = none

scan_top_level-ne-none_example :
    (scan_top_level first_byte nested ≢ none)
    × ((j : ℕ)
        → let bytes = to_uppercase nested in
          let k = skip_whitespace (length bytes) bytes (length bytes) j in
          (ltb k (length bytes) && is_ascii_whitespace (byte_at bytes k)) ≡ false)
scan_top_level-ne-none_example = scan_top_level-ne-none first_byte nested

abbrev mixed : List KeysetColumn
mixed =
    record { name = codes "score"; direction = descending }
    ∷ (record { name = codes "id"; direction = ascending } ∷ [])

abbrev at_7 : List ℕ
at_7 = 90 ∷ (7 ∷ [])

abbrev user : List ℕ
user = 1 ∷ []

build_cursor_condition-Selects_example :
    Selects mixed at_7 user (build_cursor_condition mixed at_7 1)
build_cursor_condition-Selects_example = build_cursor_condition-Selects mixed at_7 user refl

mixed_condition :
    build_cursor_condition mixed at_7 1
    ≡ some (codes "(\"score\" < $2) OR (\"score\" = $3 AND \"id\" > $4)", 90 ∷ at_7)
unfolding build_cursor_condition join quote_identifier split quote_part decimal
mixed_condition = refl

abbrev tasks : Text
tasks = codes "SELECT * FROM tasks WHERE done = $1;"

tasks_query :
    build_paginated_query tasks mixed (some at_7) 20 false 1
    ≡ ok (
        some (
          codes
              "SELECT * FROM tasks WHERE done = $1 AND ((\"score\" < $2) OR (\"score\" = $3 AND \"id\" > $4)) ORDER BY \"score\" DESC, \"id\" ASC LIMIT 21",
          90 ∷ at_7,
        ))
unfolding build_paginated_query validate_base_query text_eq validate_column_name is_ascii_alphabetic
    is_ascii_alphanumeric split build_cursor_condition has_top_level_where trim_end_matches join
    quote_identifier quote_part decimal
tasks_query = refl
