-- ===== src/Toolkit/FetchPage.antt =====
-- crates/sqlx-sqlite-toolkit/src/builders.rs, `FetchPageBuilder`. Running a query on SQLite and
-- decoding its rows, from the read pool or from a connection with attached databases, is the
-- parameter `fetch`. The inner `none` of a result is a panic.
pub mod Documented
mod Order
mod Page
pub mod Pages
pub mod Walk
mod Tests
use tauri_plugin_sqlite.Prelude.{
  ℕ, Bool, true, false, not, List, [], ◌∷◌, ◌++◌, reverse, Option, none, some, Text, length, take,
  first?, last?, is_empty, ltb, ◌==◌, if◌then◌else◌, Result, ok, err, ◌>>=◌, ◌>>◌, ok_or, guard,
}
use tauri_plugin_sqlite.Toolkit.{
  Error, empty_keyset_columns, invalid_page_size, cursor_length_mismatch, cursor_column_not_found,
}
use tauri_plugin_sqlite.Toolkit.Row.{Row, get_value}
use tauri_plugin_sqlite.Toolkit.Pagination.{KeysetColumn}
use tauri_plugin_sqlite.Toolkit.Pagination.Query.{build_paginated_query}

pub data CursorPosition (V : Type 0) : Type 0 where
  forward : List V → CursorPosition V
  backward : List V → CursorPosition V

pub record KeysetPage (V : Type 0) : Type 0 where
  pub rows : List (Row V)
  pub next_cursor : Option (List V)
  pub has_more : Bool

pub record FetchPageBuilder (V : Type 0) : Type 0 where
  pub query : Text
  pub values : List V
  pub keyset : List KeysetColumn
  pub page_size : ℕ
  pub cursor : Option (CursorPosition V)

module _ {V : Type 0} where
  unfoldable pub new : Text → List V → List KeysetColumn → ℕ → FetchPageBuilder V
  new query values keyset page_size = record {
    query = query;
    values = values;
    keyset = keyset;
    page_size = page_size;
    cursor = none;
  }

  unfoldable pub after : FetchPageBuilder V → List V → FetchPageBuilder V
  after b cursor = record b { cursor = some (forward cursor) }

  unfoldable pub before : FetchPageBuilder V → List V → FetchPageBuilder V
  before b cursor = record b { cursor = some (backward cursor) }

  abbrev pub cursor_values : Option (CursorPosition V) → Option (List V)
  cursor_values none = none
  cursor_values (some (forward vals)) = some vals
  cursor_values (some (backward vals)) = some vals

  abbrev pub is_backward : Option (CursorPosition V) → Bool
  is_backward none = false
  is_backward (some (forward vals)) = false
  is_backward (some (backward vals)) = true

  -- `if let Some(ref vals) = cursor_values && vals.len() != self.keyset.len()`
  unfoldable pub check_cursor_length : Option (List V) → List KeysetColumn → Result Error (Unit {0})
  check_cursor_length none keyset = ok tt
  check_cursor_length (some vals) keyset =
      guard (length vals == length keyset) (cursor_length_mismatch (length vals) (length keyset))

  -- The loop that reads the continuation cursor off a row.
  unfoldable pub cursor_of : List KeysetColumn → Row V → Result Error (List V)
  cursor_of [] row = ok []
  cursor_of (col ∷ keyset) row = do
    value ← ok_or (get_value row col.name) (cursor_column_not_found col.name)
    cursor_vals ← cursor_of keyset row
    ok (value ∷ cursor_vals)

  unfoldable pub next_cursor_of :
      Bool → List KeysetColumn → Option (Row V) → Result Error (Option (List V))
  unfolding cursor_of
  next_cursor_of false keyset cursor_row = ok none
  next_cursor_of true keyset none = ok none
  next_cursor_of true keyset (some row) = do
    cursor_vals ← cursor_of keyset row
    ok (some cursor_vals)

  -- From the decoded rows on.
  unfoldable pub page_of : List KeysetColumn → ℕ → Bool → List (Row V) → Result Error (KeysetPage V)
  unfolding next_cursor_of
  page_of keyset page_size reverse_order decoded =
      let has_more = ltb page_size (length decoded) in
      let truncated = if has_more then take page_size decoded else decoded in
      let rows = if reverse_order then reverse truncated else truncated in
      let cursor_row = if reverse_order then first? rows else last? rows in
      do
        next_cursor ← next_cursor_of has_more keyset cursor_row
        ok (record { rows = rows; next_cursor = next_cursor; has_more = has_more })

module _ {V : Type 0} (fetch : Text → List V → Result Error (List (Row V))) where
  unfoldable pub run_page :
      FetchPageBuilder V → Bool → Option (Text × List V) → Result Error (Option (KeysetPage V))
  unfolding page_of
  run_page b reverse_order none = ok none
  run_page b reverse_order (some (sql, cursor_bind_values)) = do
    decoded ← fetch sql (b.values ++ cursor_bind_values)
    page ← page_of b.keyset b.page_size reverse_order decoded
    ok (some page)

  unfoldable pub execute : FetchPageBuilder V → Result Error (Option (KeysetPage V))
  unfolding check_cursor_length run_page
  execute b = do
    guard (not (is_empty b.keyset)) empty_keyset_columns
    guard (not (b.page_size == 0)) invalid_page_size
    check_cursor_length (cursor_values b.cursor) b.keyset
    built ←
        build_paginated_query b.query b.keyset (cursor_values b.cursor) b.page_size
          (is_backward b.cursor) (length b.values)
    run_page b (is_backward b.cursor) built
