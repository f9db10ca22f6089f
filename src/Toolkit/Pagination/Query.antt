-- ===== src/Toolkit/Pagination/Query.antt =====
-- pagination.rs, `build_order_by` and `build_paginated_query`. A `usize` has 64 bits. The inner
-- `none` is a panic of `build_cursor_condition`.
pub mod Statement
use tauri_plugin_sqlite.Prelude.{
  ℕ, ◌+◌, ◌-◌, ◌^◌, Bool, ◌||◌, ◌&&◌, List, [], ◌∷◌, ◌++◌, map, Option, none, some, Text, codes,
  join, decimal, trim_end_matches, ltb, leb, ◌==◌, if◌then◌else◌, Result, ok, err, ◌>>=◌, ◌>>◌,
  ok_or,
}
use tauri_plugin_sqlite.Toolkit.{Error, invalid_page_size}
use tauri_plugin_sqlite.Toolkit.Pagination.{
  SortDirection, ascending, descending, KeysetColumn, reversed_keyset,
}
use tauri_plugin_sqlite.Toolkit.Pagination.Identifiers.{validate_column_name, quote_identifier}
use tauri_plugin_sqlite.Toolkit.Pagination.Scan.{validate_base_query, has_top_level_where}
use tauri_plugin_sqlite.Toolkit.Pagination.Condition.{build_cursor_condition}

abbrev pub direction_text : SortDirection → Text
direction_text ascending = codes "ASC"
direction_text descending = codes "DESC"

unfoldable pub build_order_by : List KeysetColumn → Text
build_order_by keyset =
    codes "ORDER BY "
    ++ join (codes ", ") (
        map
          (λ (k : KeysetColumn).
            quote_identifier k.name ++ (codes " " ++ direction_text k.direction))
          keyset)

abbrev pub usize_max : ℕ
usize_max = 2 ^ 64 - 1

-- `n.checked_add(1)`
unfoldable pub checked_add_one : ℕ → Option ℕ
checked_add_one n = if ltb n usize_max then some (n + 1) else none

-- `char::is_whitespace`, of ASCII.
abbrev pub is_whitespace : ℕ → Bool
is_whitespace c = c == 32 || (leb 9 c && leb c 13)

-- `base_query.trim_end().trim_end_matches(';')`
unfoldable pub trim_base : Text → Text
trim_base base_query = trim_end_matches (λ c. c == b';') (trim_end_matches is_whitespace base_query)

-- The loop that validates the column names.
unfoldable pub validate_columns : List KeysetColumn → Result Error (Unit {0})
validate_columns [] = ok tt
validate_columns (col ∷ keyset) = do validate_column_name col.name; validate_columns keyset

module _ {V : Type 0} where
  -- `if let Some(cursor_vals) = cursor { … }`
  unfoldable pub add_cursor :
      Text → List KeysetColumn → Option (List V) → ℕ → Option (Text × List V)
  add_cursor sql keyset none user_param_count = some (sql, [])
  add_cursor sql keyset (some cursor_vals) user_param_count =
      elim (build_cursor_condition keyset cursor_vals user_param_count) [
        | none ↦ none
        | some (condition, values) ↦ some (
          if has_top_level_where sql
              then sql ++ (codes " AND (" ++ (condition ++ codes ")"))
              else sql ++ (codes " WHERE (" ++ (condition ++ codes ")")),
          values,
        )
      ]

  unfoldable pub finish_query :
      List KeysetColumn → ℕ → Option (Text × List V) → Result Error (Option (Text × List V))
  unfolding build_order_by checked_add_one
  finish_query keyset page_size none = ok none
  finish_query keyset page_size (some (sql, values)) = do
    limit ← ok_or (checked_add_one page_size) invalid_page_size
    ok (
        some (
          sql ++ (codes " " ++ (build_order_by keyset ++ (codes " LIMIT " ++ decimal limit))),
          values,
        ))

  unfoldable pub build_paginated_query :
      Text
      → List KeysetColumn
      → Option (List V)
      → ℕ
      → Bool
      → ℕ
      → Result Error (Option (Text × List V))
  unfolding validate_columns add_cursor finish_query trim_base
  build_paginated_query base_query keyset cursor page_size backward user_param_count = do
    validate_base_query base_query
    validate_columns keyset
    let effective_keyset = if backward then reversed_keyset keyset else keyset
    finish_query effective_keyset page_size
        (add_cursor (trim_base base_query) effective_keyset cursor user_param_count)
