-- ===== src/Observer/Schema/Tests.antt =====
-- A key of two columns, in another order than the table's; statements with and without a row id.
use tauri_plugin_sqlite.Prelude.{
  ℕ, ◌≡◌, ◌↔◌, refl, true, false, List, [], ◌∷◌, map, Option, none, some, Text, codes, Result, ok,
}
use tauri_plugin_sqlite.Observer.{ObserverError}
use tauri_plugin_sqlite.Observer.Broker.{TableInfo, ObservationBroker}
use tauri_plugin_sqlite.Observer.Schema.{
  ColumnRow, column_index, query_pk_columns, has_without_rowid_clause, query_table_info,
}
use tauri_plugin_sqlite.Observer.Schema.Keys.{IsKeyOf, query_pk_columns-IsKeyOf}
use tauri_plugin_sqlite.Observer.Schema.Clause.{HasClause, has_without_rowid_clause_iff}
use tauri_plugin_sqlite.Observer.Schema.Informed.{Informs, ensure_table_info-Informs}

abbrev at_index : ℕ → ℕ → ColumnRow
at_index cid pk = record { cid = cid; pk = pk }

abbrev later_columns : List ColumnRow
later_columns = at_index 1 0 ∷ (at_index 2 1 ∷ [])

in_key_order : query_pk_columns (ok (at_index 0 2 ∷ later_columns)) ≡ ok (some (2 ∷ (0 ∷ [])))
unfolding query_pk_columns
in_key_order = refl

query_pk_columns-IsKeyOf_example :
    (key others : List ColumnRow) × (query_pk_columns (ok (at_index 0 2 ∷ later_columns))
      ≡ ok (some (map column_index key)))
    × IsKeyOf key others (at_index 0 2 ∷ later_columns)
query_pk_columns-IsKeyOf_example = query_pk_columns-IsKeyOf (at_index 0 2) later_columns

at_the_end : has_without_rowid_clause (codes "CREATE TABLE t (id TEXT) without  ROWID ") ≡ true
unfolding has_without_rowid_clause
at_the_end = refl

has_without_rowid_clause_iff_example :
    (has_without_rowid_clause (codes "CREATE TABLE t (id TEXT) without  ROWID ") ≡ true)
    ↔ HasClause (codes "CREATE TABLE t (id TEXT) without  ROWID ")
has_without_rowid_clause_iff_example =
    has_without_rowid_clause_iff (codes "CREATE TABLE t (id TEXT) without  ROWID ")

in_a_comment : has_without_rowid_clause (codes "CREATE TABLE t (id) -- WITHOUT ROWID x") ≡ false
unfolding has_without_rowid_clause
in_a_comment = refl

-- SQLite takes both options of a table, in either order.
with_strict :
    has_without_rowid_clause (codes "CREATE TABLE t (id TEXT) WITHOUT ROWID, STRICT") ≡ false
unfolding has_without_rowid_clause
with_strict = refl

missing_table : query_table_info (ok none) (ok []) ≡ ok none
unfolding query_table_info
missing_table = refl

abbrev posts_info : TableInfo
posts_info = record { pk_columns = 0 ∷ []; without_rowid = false }

abbrev broker : ObservationBroker
broker = record {
  buffer = [];
  observed_tables = codes "posts" ∷ (codes "users" ∷ []);
  table_info = (codes "posts", posts_info) ∷ [];
  capture_values = true;
}

abbrev no_keys : Text → Result ObserverError (Option TableInfo)
no_keys table = ok (some (record { pk_columns = []; without_rowid = false }))

ensure_table_info-Informs_example : Informs no_keys broker (ok tt) (ok tt)
ensure_table_info-Informs_example = ensure_table_info-Informs no_keys broker (ok tt) (ok tt)
