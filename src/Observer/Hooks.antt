-- ===== src/Observer/Hooks.antt =====
-- crates/sqlx-sqlite-observer/src/hooks.rs: the callbacks that SQLite makes. What the C functions
-- give is in the arguments: the table's name, if it is text, the number of columns, if it is not
-- negative, and for each column the value before and behind, if there is no error.
pub mod Transactions
pub mod Discretion
pub mod Keys
mod Tests
use tauri_plugin_sqlite.Prelude.{
  ℕ, zero, suc, Bool, true, false, List, [], ◌∷◌, ◌++◌, Option, none, some, Text, ◌==◌,
  if◌then◌else◌,
}
use tauri_plugin_sqlite.Observer.Broker.{
  SqliteValue, null, ChangeOperation, insert, update, delete, PreUpdateEvent, TableChange,
  TableInfo, ObservationBroker, is_table_observed, on_preupdate, on_commit, on_rollback,
  observe_table, observe_tables, set_table_info,
}

-- SQLite's codes of the operations.
abbrev pub operation_of : ℕ → Option ChangeOperation
operation_of op =
    if op == 18
    then some insert
    else if op == 23
    then some update
    else if op == 9
    then some delete
    else none

pub record PreUpdate : Type 0 where
  pub op : ℕ
  pub table : Option Text
  pub old_rowid : ℕ
  pub new_rowid : ℕ
  pub column_count : Option ℕ
  pub old_value : ℕ → Option SqliteValue
  pub new_value : ℕ → Option SqliteValue

-- The loops that capture a row, from column `i` on.
unfoldable pub capture : ℕ → ℕ → (ℕ → Option SqliteValue) → List SqliteValue
capture zero i value = []
capture (suc n) i value = (elim (value i) [ none ↦ null | some v ↦ v ]) ∷ capture n (suc i) value

abbrev pub captured_old : ChangeOperation → ℕ → (ℕ → Option SqliteValue) → Option (List SqliteValue)
captured_old insert n value = none
captured_old update n value = some (capture n 0 value)
captured_old delete n value = some (capture n 0 value)

abbrev pub captured_new : ChangeOperation → ℕ → (ℕ → Option SqliteValue) → Option (List SqliteValue)
captured_new insert n value = some (capture n 0 value)
captured_new update n value = some (capture n 0 value)
captured_new delete n value = none

-- The event of a callback with a name, an operation and a column count.
abbrev pub event_of : PreUpdate → Text → ChangeOperation → ℕ → PreUpdateEvent
event_of p table operation column_count = record {
  table = table;
  operation = operation;
  old_rowid = p.old_rowid;
  new_rowid = p.new_rowid;
  old_values = captured_old operation column_count p.old_value;
  new_values = captured_new operation column_count p.new_value;
}

unfoldable pub preupdate_callback : ObservationBroker → PreUpdate → ObservationBroker
unfolding capture
preupdate_callback b p = elim p.table [
  | none ↦ b
  | some table ↦
      if is_table_observed b table
      then (elim (operation_of p.op) [
        | none ↦ b
        | some operation ↦ elim p.column_count [
          | none ↦ b
          | some n ↦ on_preupdate b (event_of p table operation n)
        ]
      ])
      else b
]

-- What SQLite and the program call, in the order in which it happens on the connections.
pub data Hook : Type 0 where
  preupdate : PreUpdate → Hook
  commit : (ℕ → ℕ) → Hook
  rollback : Hook
  observe : Text → TableInfo → Hook
  observe_names : List Text → Hook
  describe : Text → TableInfo → Hook

unfoldable pub fire : Hook → ObservationBroker → ObservationBroker × List TableChange
unfolding preupdate_callback
fire (preupdate p) b = (preupdate_callback b p, [])
fire (commit clock) b = on_commit b clock
fire rollback b = (on_rollback b, [])
fire (observe table info) b = (observe_table b table info, [])
fire (observe_names tables) b = (observe_tables b tables, [])
fire (describe table info) b = (set_table_info b table info, [])

unfoldable pub fire_all : List Hook → ObservationBroker → ObservationBroker × List TableChange
unfolding fire
fire_all [] b = (b, [])
fire_all (hook ∷ hooks) b =
    let one = fire hook b in let rest = fire_all hooks one.0 in (rest.0, one.1 ++ rest.1)
