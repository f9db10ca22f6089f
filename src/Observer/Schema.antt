-- ===== src/Observer/Schema.antt =====
-- crates/sqlx-sqlite-observer/src/schema.rs and `ensure_table_info` of conn_mgr.rs: what the broker
-- is told about the tables. What SQLite answers to a query is an argument, with its error as text.
pub mod Keys
pub mod Informed
pub mod Spelling
pub mod Clause
mod Tests
use tauri_plugin_sqlite.Prelude.{
  ℕ, zero, suc, ◌+◌, ◌-◌, Bool, true, false, not, ◌&&◌, ◌||◌, List, [], ◌∷◌, map, Option, none,
  some, Text, codes, find, ltb, leb, ◌==◌, is_empty, if◌then◌else◌, Result, ok, err, ◌>>=◌, map_err,
}
use tauri_plugin_sqlite.ConnMgr.{ConnError}
use tauri_plugin_sqlite.Observer.{ObserverError, sqlx, conn_mgr}
use tauri_plugin_sqlite.Observer.Broker.{TableInfo, ObservationBroker, set_table_info}

-- A row of `pragma_table_info`: the index of a column, and its position in the key, from 1, or 0.
pub record ColumnRow : Type 0 where
  pub cid : ℕ
  pub pk : ℕ

unfoldable pub in_key : List ColumnRow → List ColumnRow
in_key [] = []
in_key (row ∷ rows) = let rest = in_key rows in if ltb 0 row.pk then row ∷ rest else rest

-- `sort_by_key` by the position, which is stable.
unfoldable pub insert_by_pk : ColumnRow → List ColumnRow → List ColumnRow
insert_by_pk row [] = row ∷ []
insert_by_pk row (r ∷ rows) =
    let rest = insert_by_pk row rows in if ltb r.pk row.pk then r ∷ rest else row ∷ (r ∷ rows)

unfoldable pub sort_by_pk : List ColumnRow → List ColumnRow
unfolding insert_by_pk
sort_by_pk [] = []
sort_by_pk (row ∷ rows) = insert_by_pk row (sort_by_pk rows)

abbrev pub column_index : ColumnRow → ℕ
column_index row = row.cid

unfoldable pub query_pk_columns :
    Result Text (List ColumnRow) → Result ObserverError (Option (List ℕ))
unfolding in_key sort_by_pk
query_pk_columns fetched = do
  rows ← map_err sqlx fetched
  ok (if is_empty rows then none else some (map column_index (sort_by_pk (in_key rows))))

-- The pattern `(?i)\)\s*WITHOUT\s+ROWID\s*$`, on ASCII.
unfoldable pub is_space : ℕ → Bool
is_space c = c == 32 || (leb 9 c && leb c 13)

unfoldable pub skip_spaces : Text → Text
unfolding is_space
skip_spaces [] = []
skip_spaces (c ∷ r) = let rest = skip_spaces r in if is_space c then rest else c ∷ r

-- A word in capitals at the front, in any case: what is behind it.
unfoldable pub after_word : Text → Text → Option Text
after_word [] t = some t
after_word (w ∷ ws) [] = none
after_word (w ∷ ws) (c ∷ r) = if c == w || c == w + 32 then after_word ws r else none

unfoldable pub after_some_spaces : Text → Option Text
unfolding skip_spaces is_space
after_some_spaces [] = none
after_some_spaces (c ∷ r) = if is_space c then some (skip_spaces r) else none

abbrev pub and_then : {A B : Type 0} → Option A → (A → Option B) → Option B
and_then none f = none
and_then (some a) f = f a

-- The pattern behind its parenthesis.
unfoldable pub matches_here : Text → Bool
unfolding skip_spaces after_word after_some_spaces
matches_here t =
    elim (and_then (after_word (codes "WITHOUT") (skip_spaces t))
      (λ behind. and_then (after_some_spaces behind) (after_word (codes "ROWID")))) [
        | none ↦ false
        | some rest ↦ is_empty (skip_spaces rest)
      ]

unfoldable pub has_without_rowid_clause : Text → Bool
unfolding matches_here
has_without_rowid_clause [] = false
has_without_rowid_clause (c ∷ r) = (c == b')' && matches_here r) || has_without_rowid_clause r

-- The row of `sqlite_master`, if the table is there, with its statement, if it has one.
unfoldable pub is_without_rowid : Result Text (Option (Option Text)) → Result ObserverError Bool
unfolding has_without_rowid_clause
is_without_rowid fetched = do
  row ← map_err sqlx fetched
  ok (elim row [
    | none ↦ false
    | some sql ↦ elim sql [ none ↦ false | some create_sql ↦ has_without_rowid_clause create_sql ]
  ])

abbrev pub is_none : {A : Type 0} → Option A → Bool
is_none none = true
is_none (some a) = false

abbrev pub or_default : Option (List ℕ) → List ℕ
or_default none = []
or_default (some xs) = xs

unfoldable pub query_table_info :
    Result Text (Option (Option Text))
    → Result Text (List ColumnRow)
    → Result ObserverError (Option TableInfo)
unfolding is_without_rowid query_pk_columns
query_table_info master columns = do
  without_rowid ← is_without_rowid master
  pk_columns ← query_pk_columns columns
  ok (
      if is_none pk_columns && not without_rowid
      then none
      else some (record { pk_columns = or_default pk_columns; without_rowid = without_rowid }))

-- The tables that have no info yet.
unfoldable pub tables_to_query : ObservationBroker → List Text → List Text
tables_to_query b [] = []
tables_to_query b (table ∷ tables) =
    let rest = tables_to_query b tables in
    elim (find table b.table_info) [ none ↦ table ∷ rest | some info ↦ rest ]

-- The loop: a table that is not there, or an error, is only logged.
unfoldable pub set_infos :
    (Text → Result ObserverError (Option TableInfo))
    → List Text
    → ObservationBroker
    → ObservationBroker
set_infos query [] b = b
set_infos query (table ∷ tables) b = elim (query table) [
  | err e ↦ set_infos query tables b
  | ok found ↦ elim found [
    | none ↦ set_infos query tables b
    | some info ↦ set_infos query tables (set_table_info b table info)
  ]
]

-- `ensure_table_info`: `pool` is `read_pool()`, `acquired` whether it gives a connection, and
-- `query` is `query_table_info` with that connection.
unfoldable pub ensure_table_info :
    Result ConnError (Unit {0})
    → Result Text (Unit {0})
    → (Text → Result ObserverError (Option TableInfo))
    → ObservationBroker
    → Result ObserverError (Unit {0}) × ObservationBroker
unfolding tables_to_query set_infos
ensure_table_info pool acquired query b =
    let tables = tables_to_query b b.observed_tables in
    if is_empty tables
    then (ok tt, b)
    else elim (map_err conn_mgr pool >>= λ _. map_err sqlx acquired) [
      | err e ↦ (err e, b)
      | ok _ ↦ (ok tt, set_infos query tables b)
    ]
