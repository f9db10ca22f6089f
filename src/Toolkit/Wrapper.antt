-- ===== src/Toolkit/Wrapper.antt =====
-- crates/sqlx-sqlite-toolkit/src/wrapper.rs: `DatabaseWrapper`, a database with its observer, and
-- what a value is bound as. `D` is a database. An observer is the broker of an
-- `ObservableSqliteDatabase`, whose database is that of the wrapper.
pub mod Binding
mod Tests
use tauri_plugin_sqlite.Prelude.{
  ℕ, suc, ◌<◌, ◌-◌, ◌^◌, Bool, true, false, List, [], ◌∷◌, Option, none, some, Text, ltb, leb,
  if◌then◌else◌, Result, ok, err, ◌>>=◌, map_err,
}
use tauri_plugin_sqlite.ConnMgr.{ConnError}
use tauri_plugin_sqlite.Observer.{ObserverError}
use tauri_plugin_sqlite.Observer.Broker.{ObservationBroker}
use tauri_plugin_sqlite.Observer.Stream.{ObserverConfig, new_observable}
use tauri_plugin_sqlite.Toolkit.{Error, connection_manager}
use tauri_plugin_sqlite.Toolkit.Json.{Json, null, bool, string, unsigned, negative, float, compound}

pub record DatabaseWrapper (D : Type 0) : Type 0 where
  pub inner : D
  pub observer : Option ObservationBroker

-- A writer of the connection manager, or one of the observer.
pub data WriterGuard (W G : Type 0) : Type 0 where
  regular : W → WriterGuard W G
  observable : G → WriterGuard W G

module _ {D : Type 0} where
  unfoldable pub connect : Result ConnError D → Result Error (DatabaseWrapper D)
  connect opened = do
    db ← map_err connection_manager opened
    ok (record { inner = db; observer = none })

  abbrev pub is_observing : DatabaseWrapper D → Bool
  is_observing w = elim w.observer [ none ↦ false | some b ↦ true ]

  abbrev pub disable_observation : DatabaseWrapper D → DatabaseWrapper D
  disable_observation w = record w { observer = none }

  -- `none` is the panic of a channel without capacity.
  unfoldable pub enable_observation :
      ObserverConfig → DatabaseWrapper D → Option (DatabaseWrapper D)
  enable_observation config w = elim (new_observable config) [
    | none ↦ none
    | some b ↦ some (record (disable_observation w) { observer = some b })
  ]

  -- `plain` and `observed` acquire a writer of the database, and one with the hooks of a broker.
  unfoldable pub acquire_writer :
      {W G : Type 0}
      → (D → Result ConnError W)
      → (D → ObservationBroker → Result ObserverError G)
      → DatabaseWrapper D
      → Result Error (WriterGuard W G)
  acquire_writer plain observed w = elim w.observer [
    | some b ↦ map_err Error.observer (observed w.inner b) >>= λ g. ok (observable g)
    | none ↦ map_err connection_manager (plain w.inner) >>= λ g. ok (regular g)
  ]

  unfoldable pub acquire_regular_writer :
      {W : Type 0} → (D → Result ConnError W) → DatabaseWrapper D → Result Error W
  acquire_regular_writer plain w = map_err connection_manager (plain w.inner)

  -- `close`, `remove` and `run_migrations`, which the database does; the wrapper, which the first two
  -- consume, goes without an observer.
  unfoldable pub close_wrapper :
      (D → Result ConnError (Unit {0})) → DatabaseWrapper D → Result Error (Unit {0})
  close_wrapper close w = map_err connection_manager (close (disable_observation w).inner)

  -- `ExecuteBuilder::execute` of builders.rs on the writer of the wrapper: `run` executes the
  -- statement on either kind of writer.
  unfoldable pub execute_plain :
      {W G R : Type 0}
      → (D → Result ConnError W)
      → (D → ObservationBroker → Result ObserverError G)
      → (WriterGuard W G → Result Text R)
      → DatabaseWrapper D
      → Result Error R
  unfolding acquire_writer
  execute_plain plain observed run w = do
    writer ← acquire_writer plain observed w
    map_err Error.sqlx (run writer)

-- What SQLite gets: an integer by its sign and absolute value, a float by its bits, JSON by its text.
pub data Bound : Type 0 where
  bind_null : Bound
  bind_text : Text → Bound
  bind_nonnegative : ℕ → Bound
  bind_negative : ℕ → Bound
  bind_float : ℕ → Bound
  bind_json : Json → Bound

abbrev pub i64_max : ℕ
i64_max = 2 ^ 63 - 1

-- `as_i64` and `as_u64` of a number.
abbrev pub as_i64 : Json → Option Bound
as_i64 (unsigned n) = if leb n i64_max then some (bind_nonnegative n) else none
as_i64 (negative n) = some (bind_negative n)
as_i64 j = none

abbrev pub as_u64 : Json → Option ℕ
as_u64 (unsigned n) = some n
as_u64 j = none

-- The arm of a number; `as_f64` is the conversion of an unsigned integer, to bits, and `bits` what
-- `number.as_f64()` gives.
unfoldable pub bind_number : (ℕ → ℕ) → Json → ℕ → Bound
bind_number as_f64 number bits = elim (as_i64 number) [
  | some int_val ↦ int_val
  | none ↦ elim (as_u64 number) [
    | some uint_val ↦
        if leb uint_val i64_max then bind_nonnegative uint_val else bind_float (as_f64 uint_val)
    | none ↦ bind_float bits
  ]
]

unfoldable pub bind_value : (ℕ → ℕ) → Json → Bound
unfolding bind_number
bind_value as_f64 null = bind_null
bind_value as_f64 (string s) = bind_text s
bind_value as_f64 (unsigned n) = bind_number as_f64 (unsigned n) (as_f64 n)
bind_value as_f64 (negative n) = bind_number as_f64 (negative n) 0
bind_value as_f64 (float bits) = bind_number as_f64 (float bits) bits
bind_value as_f64 (bool b) = bind_json (bool b)
bind_value as_f64 (compound t) = bind_json (compound t)
