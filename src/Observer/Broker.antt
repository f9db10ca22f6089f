-- ===== src/Observer/Broker.antt =====
-- crates/sqlx-sqlite-observer/src/change.rs and broker.rs: changes are buffered while a transaction
-- runs, and sent to the subscribers when it commits. An integer or a row id is its 64-bit word, a
-- floating-point number its bits. What is sent to the broadcast channel is returned, and whether it
-- has a receiver is passed over, as in the source.
pub mod PrimaryKey
use tauri_plugin_sqlite.Prelude.{
  ℕ, zero, suc, Bool, true, false, List, [], ◌∷◌, ◌++◌, map, Option, none, some, Text, text_eq, Map,
  find, put, length, get_elem?, any, is_empty, if◌then◌else◌, Result, ok, err, ◌>>=◌, ok_or,
}
use tauri_plugin_sqlite.Observer.{ObserverError, schema_mismatch}

pub data SqliteValue : Type 0 where
  null : SqliteValue
  integer : ℕ → SqliteValue
  real : ℕ → SqliteValue
  text : Text → SqliteValue
  blob : List ℕ → SqliteValue

pub data ColumnValue : Type 0 where
  column_null : ColumnValue
  column_integer : ℕ → ColumnValue
  column_real : ℕ → ColumnValue
  column_text : Text → ColumnValue
  column_blob : List ℕ → ColumnValue

-- `From<SqliteValue> for ColumnValue`
unfoldable pub column_value : SqliteValue → ColumnValue
column_value null = column_null
column_value (integer i) = column_integer i
column_value (real r) = column_real r
column_value (text s) = column_text s
column_value (blob b) = column_blob b

pub data ChangeOperation : Type 0 where
  insert update delete : ChangeOperation

pub record TableInfo : Type 0 where
  pub pk_columns : List ℕ
  pub without_rowid : Bool

pub record PreUpdateEvent : Type 0 where
  pub table : Text
  pub operation : ChangeOperation
  pub old_rowid : ℕ
  pub new_rowid : ℕ
  pub old_values : Option (List SqliteValue)
  pub new_values : Option (List SqliteValue)

pub record TableChange : Type 0 where
  pub table : Text
  pub operation : Option ChangeOperation
  pub rowid : Option ℕ
  pub primary_key : List ColumnValue
  pub old_values : Option (List ColumnValue)
  pub new_values : Option (List ColumnValue)
  pub timestamp : ℕ

pub record ObservationBroker : Type 0 where
  pub buffer : List PreUpdateEvent
  pub observed_tables : List Text
  pub table_info : Map TableInfo
  pub capture_values : Bool

-- `ObservationBroker::new`, which panics on a channel capacity of zero.
unfoldable pub new_broker : ℕ → Bool → Option ObservationBroker
new_broker zero capture_values = none
new_broker (suc n) capture_values =
    some (record {
      buffer = [];
      observed_tables = [];
      table_info = [];
      capture_values = capture_values;
    })

unfoldable pub is_table_observed : ObservationBroker → Text → Bool
is_table_observed b table = any (text_eq table) b.observed_tables

-- `HashSet::insert`
unfoldable pub add_table : Text → List Text → List Text
add_table table tables = if any (text_eq table) tables then tables else table ∷ tables

unfoldable pub set_table_info : ObservationBroker → Text → TableInfo → ObservationBroker
set_table_info b table info = record b { table_info = put table info b.table_info }

unfoldable pub observe_table : ObservationBroker → Text → TableInfo → ObservationBroker
unfolding add_table
observe_table b table info = record b {
  observed_tables = add_table table b.observed_tables;
  table_info = put table info b.table_info;
}

unfoldable pub observe_tables : ObservationBroker → List Text → ObservationBroker
unfolding add_table
observe_tables b [] = b
observe_tables b (table ∷ tables) =
    observe_tables (record b { observed_tables = add_table table b.observed_tables }) tables

unfoldable pub on_preupdate : ObservationBroker → PreUpdateEvent → ObservationBroker
on_preupdate b event = record b { buffer = b.buffer ++ (event ∷ []) }

unfoldable pub on_rollback : ObservationBroker → ObservationBroker
on_rollback b = record b { buffer = [] }

abbrev pub map_option : {A B : Type 0} → (A → B) → Option A → Option B
map_option f none = none
map_option f (some a) = some (f a)

unfoldable pub values_to_vec : List SqliteValue → List ColumnValue
unfolding column_value
values_to_vec = map column_value

-- The values of a row that hold its key.
unfoldable pub key_row : PreUpdateEvent → Option (List SqliteValue)
key_row event = elim event.operation [
  | delete ↦ event.old_values
  | insert ↦ event.new_values
  | update ↦ event.new_values
]

-- The loop over the indices of the key's columns.
unfoldable pub pick : Text → ℕ → List SqliteValue → List ℕ → Result ObserverError (List ColumnValue)
unfolding column_value
pick table expected values [] = ok []
pick table expected values (idx ∷ pk_columns) = do
  v ← ok_or (get_elem? values idx) (schema_mismatch table expected (length values))
  pk_values ← pick table expected values pk_columns
  ok (column_value v ∷ pk_values)

unfoldable pub extract_primary_key :
    PreUpdateEvent → Option TableInfo → Result ObserverError (List ColumnValue)
unfolding key_row pick
extract_primary_key event none = ok []
extract_primary_key event (some info) =
    if is_empty info.pk_columns then ok [] else (elim (key_row event) [
      | none ↦ ok []
      | some values ↦ pick event.table (length info.pk_columns) values info.pk_columns
    ])

unfoldable pub rowid_of : PreUpdateEvent → Option TableInfo → Option ℕ
rowid_of event table_info =
    let rowid : ℕ = elim event.operation [
      | insert ↦ event.new_rowid
      | delete ↦ event.old_rowid
      | update ↦ event.new_rowid
    ] in
    elim table_info [
      | none ↦ some rowid
      | some info ↦ if info.without_rowid then none else some rowid
    ]

-- `now` is the time that `Instant::now` gives.
unfoldable pub event_to_change :
    ObservationBroker → ℕ → PreUpdateEvent → Result ObserverError TableChange
unfolding extract_primary_key rowid_of values_to_vec
event_to_change b now event =
    let table_info = find event.table b.table_info in
    do
      primary_key ← extract_primary_key event table_info
      ok (record {
        table = event.table;
        operation = some event.operation;
        rowid = rowid_of event table_info;
        primary_key = primary_key;
        old_values = if b.capture_values then map_option values_to_vec event.old_values else none;
        new_values = if b.capture_values then map_option values_to_vec event.new_values else none;
        timestamp = now;
      })

-- The loop of `on_commit`: what it sends. An event that does not convert is only logged. `clock i`
-- is the time at which event `i` is converted.
unfoldable pub flush : ObservationBroker → (ℕ → ℕ) → ℕ → List PreUpdateEvent → List TableChange
unfolding event_to_change
flush b clock i [] = []
flush b clock i (event ∷ events) =
    let rest = flush b clock (suc i) events in
    elim (event_to_change b (clock i) event) [
      | ok table_change ↦ table_change ∷ rest
      | err e ↦ rest
    ]

-- The broker behind it, and what it sends.
unfoldable pub on_commit : ObservationBroker → (ℕ → ℕ) → ObservationBroker × List TableChange
unfolding flush
on_commit b clock = (record b { buffer = [] }, flush b clock 0 b.buffer)
