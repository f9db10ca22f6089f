-- ===== src/Plugin/Migrations.antt =====
-- src/lib.rs: the builder of the plugin, its setup, and the task that migrates a database, whose
-- status and events the commands of src/commands.rs read. `M` is a migrator. `notified` counts the
-- calls of `notify_waiters`.
pub mod Turns
pub mod Settled
mod Tests
use tauri_plugin_sqlite.Prelude.{
  ℕ, zero, suc, Bool, true, false, List, [], ◌∷◌, ◌++◌, Option, none, some, Text, text_eq, codes,
  Map, find, put, if◌then◌else◌, Result, ok, err, ◌>>=◌, FsPath,
}
use tauri_plugin_sqlite.Plugin.{PluginError, invalid_config}
use tauri_plugin_sqlite.Plugin.Databases.{
  MigrationStatus, pending, running, complete, failed, DbInstances, default_max_databases,
}

pub record Builder (M : Type 0) : Type 0 where
  pub migrations : Map M
  pub transaction_timeout : Option ℕ
  pub max_databases : Option ℕ

pub record MigrationEvent : Type 0 where
  pub db_path : Text
  pub status : Text
  pub migration_count : Option ℕ
  pub error : Option Text

pub record MigrationState : Type 0 where
  pub status : MigrationStatus
  pub notified : ℕ
  pub events : List MigrationEvent

-- `MigrationState::new`, `update_status` and `cache_event`
abbrev pub new_state : MigrationState
new_state = record { status = pending; notified = 0; events = [] }

unfoldable pub update_status : MigrationStatus → MigrationState → MigrationState
update_status status s = record s { status = status; notified = suc s.notified }

unfoldable pub cache_event : MigrationEvent → MigrationState → MigrationState
cache_event event s = record s { events = s.events ++ event ∷ [] }

-- `if let Some(state) = states.get_mut(path) { … }`
unfoldable pub modify :
    Text → (MigrationState → MigrationState) → Map MigrationState → Map MigrationState
modify path f states = elim (find path states) [ none ↦ states | some s ↦ put path (f s) states ]

module _ {M : Type 0} where
  abbrev pub new_builder : Builder M
  new_builder = record { migrations = []; transaction_timeout = none; max_databases = none }

  unfoldable pub add_migrations : Text → M → Builder M → Builder M
  add_migrations path migrator b = record b { migrations = put path migrator b.migrations }

  unfoldable pub transaction_timeout : ℕ → Builder M → Result PluginError (Builder M)
  transaction_timeout zero b =
      err (invalid_config (codes "transaction_timeout must be greater than zero"))
  transaction_timeout (suc n) b = ok (record b { transaction_timeout = some (suc n) })

  -- `app.manage(match max_databases { … })`
  unfoldable pub managed_instances : {W : Type 0} → Builder M → DbInstances W
  managed_instances b = record {
    inner = [];
    max = elim b.max_databases [ some max ↦ max | none ↦ default_max_databases ];
  }

  -- The loop of the setup over `migrations.keys()`.
  unfoldable pub initial_states : Map M → Map MigrationState → Map MigrationState
  initial_states [] states = states
  initial_states ((path, m) ∷ ms) states = initial_states ms (put path new_state states)

-- The states under their lock, and the events that were given to `app.emit`.
pub record Progress : Type 0 where
  pub states : Map MigrationState
  pub emitted : List MigrationEvent

-- `emit_migration_event`; `locked` says whether the lock is taken, so that `try_write` fails.
unfoldable pub emit_migration_event : Bool → MigrationEvent → Progress → Progress
unfolding modify cache_event
emit_migration_event locked event w = record {
  states = if locked then w.states else modify event.db_path (cache_event event) w.states;
  emitted = w.emitted ++ event ∷ [];
}

abbrev pub running_event : Text → MigrationEvent
running_event path = record {
  db_path = path;
  status = codes "running";
  migration_count = none;
  error = none;
}

abbrev pub last_event : Text → Result Text ℕ → MigrationEvent
last_event path (ok count) = record {
  db_path = path;
  status = codes "completed";
  migration_count = some count;
  error = none;
}
last_event path (err e) = record {
  db_path = path;
  status = codes "failed";
  migration_count = none;
  error = some e;
}

abbrev pub last_status : Result Text ℕ → MigrationStatus
last_status (ok count) = complete
last_status (err e) = failed e

-- What the task does first. `contended` says whether another task has the lock when the event is to
-- be cached.
unfoldable pub begin_migrations : Text → Bool → Progress → Progress
unfolding emit_migration_event modify update_status
begin_migrations path contended w =
    emit_migration_event contended (running_event path)
      (record w { states = modify path (update_status running) w.states })

-- What the task does last, on success or error: the event is emitted while `states`, the guard of
-- the lock, is still in scope.
unfoldable pub end_migrations : Text → Result Text ℕ → Progress → Progress
unfolding emit_migration_event modify update_status
end_migrations path outcome w =
    emit_migration_event true (last_event path outcome)
      (record w { states = modify path (update_status (last_status outcome)) w.states })

-- What comes between: the path, the connection and the migrations, each with its error as text.
unfoldable pub migration_outcome :
    {D : Type 0}
    → Result Text FsPath
    → (FsPath → Result Text D)
    → (D → Result Text (Unit {0}))
    → ℕ
    → Result Text ℕ
migration_outcome abs_path connect run_migrations count = do
  p ← abs_path
  db ← connect p
  run_migrations db >>= λ _. ok count

-- The tasks take turns: one begins, or ends.
pub data Turn : Type 0 where
  begins : Text → Bool → Turn
  ends : Text → Result Text ℕ → Turn

unfoldable pub run_migrations_for_databases : List Turn → Progress → Progress
unfolding begin_migrations end_migrations
run_migrations_for_databases [] w = w
run_migrations_for_databases (begins path contended ∷ turns) w =
    run_migrations_for_databases turns (begin_migrations path contended w)
run_migrations_for_databases (ends path outcome ∷ turns) w =
    run_migrations_for_databases turns (end_migrations path outcome w)

-- The command `get_migration_events`.
unfoldable pub get_migration_events : Text → Map MigrationState → List MigrationEvent
get_migration_events db states = elim (find db states) [ some s ↦ s.events | none ↦ [] ]
