-- ===== src/Plugin/Databases.antt =====
-- src/commands.rs and src/lib.rs: the databases that the plugin has loaded, and the commands that
-- load, close and remove them. `W` is a database wrapper and `H` the abort handle of a
-- subscription's task.
pub mod Limit
pub mod Closing
mod Tests
use tauri_plugin_sqlite.Prelude.{
  ℕ, zero, suc, Bool, true, false, not, ◌&&◌, List, [], ◌∷◌, ◌++◌, map, Option, none, some, Text,
  Map, find, put, erase, leb, length, if◌then◌else◌, Result, ok, err, ◌>>=◌, ok_or, codes, reverse,
}
use tauri_plugin_sqlite.Plugin.{
  PluginError, database_not_loaded, too_many_databases, invalid_config, migration,
}
use tauri_plugin_sqlite.Plugin.Subscriptions.{ActiveSubscription, remove_for_db}

pub record DbInstances (W : Type 0) : Type 0 where
  pub inner : Map W
  pub max : ℕ

-- `Builder::max_databases`, and the default.
unfoldable pub max_databases : ℕ → Result PluginError ℕ
max_databases zero = err (invalid_config (codes "max_databases must be greater than zero"))
max_databases (suc n) = ok (suc n)

abbrev pub default_max_databases : ℕ
default_max_databases = 50

pub data MigrationStatus : Type 0 where
  pending : MigrationStatus
  running : MigrationStatus
  complete : MigrationStatus
  failed : Text → MigrationStatus

-- One round of `await_migrations`: `none` is to wait for the next notification.
unfoldable pub migrations_round : Option MigrationStatus → Option (Result PluginError (Unit {0}))
migrations_round none = some (ok tt)
migrations_round (some complete) = some (ok tt)
migrations_round (some (failed e)) = some (err (migration e))
migrations_round (some pending) = none
migrations_round (some running) = none

-- The loop of `await_migrations`, over what it reads in its rounds: `none` if it still waits.
unfoldable pub await_migrations :
    List (Option MigrationStatus) → Option (Result PluginError (Unit {0}))
await_migrations [] = none
await_migrations (status ∷ later) =
    let again = await_migrations later in
    elim (migrations_round status) [ some r ↦ some r | none ↦ again ]

abbrev pub is_loaded : {W : Type 0} → Text → Map W → Bool
is_loaded db m = elim (find db m) [ none ↦ false | some w ↦ true ]

-- `ActiveSubscriptions::abort_all`
unfoldable pub abort_all_subscriptions : {H : Type 0} → Map (ActiveSubscription H) → List H
abort_all_subscriptions [] = []
abort_all_subscriptions ((id, sub) ∷ subs) = sub.abort_handle ∷ abort_all_subscriptions subs

module _ {W : Type 0} where
  -- `load` behind the migrations: `earlier` is what it reads under the read lock, `instances` what
  -- the state is under the write lock, and `connect` what connecting gives.
  unfoldable pub load :
      Result PluginError W
      → Text
      → DbInstances W
      → DbInstances W
      → Result PluginError Text × DbInstances W
  load connect db earlier instances =
      if is_loaded db earlier.inner
      then (ok db, instances)
      else if not (is_loaded db instances.inner) && leb instances.max (length instances.inner)
      then (err (too_many_databases instances.max), instances)
      else if is_loaded db instances.inner
      then (ok db, instances)
      else elim connect [
        | err e ↦ (err e, instances)
        | ok w ↦ (ok db, record instances { inner = put db w instances.inner })
      ]

  -- The loop of `close_all`: the last error.
  unfoldable pub close_loop :
      (W → Result PluginError (Unit {0})) → Map W → Option PluginError → Option PluginError
  close_loop shut [] last_error = last_error
  close_loop shut ((db, w) ∷ m) last_error = elim (shut w) [
    | ok _ ↦ close_loop shut m last_error
    | err e ↦ close_loop shut m (some e)
  ]

  module _ {H : Type 0} where
    -- `close` and `remove`, which differ in what they do with the wrapper: the result, the state,
    -- the subscriptions, and the handles that are aborted.
    unfoldable pub close_database :
        (W → Result PluginError (Unit {0}))
        → Text
        → DbInstances W
        → Map (ActiveSubscription H)
        → Result PluginError Bool × DbInstances W × Map (ActiveSubscription H) × List H
    close_database shut db instances subs =
        let aborted = remove_for_db subs db in
        elim (find db instances.inner) [
          | none ↦ (ok false, instances, aborted.0, aborted.1)
          | some w ↦ (
            shut w >>= λ _. ok true,
            record instances { inner = erase db instances.inner },
            aborted.0,
            aborted.1,
          )
        ]

    unfoldable pub close_all :
        (W → Result PluginError (Unit {0}))
        → DbInstances W
        → Map (ActiveSubscription H)
        → Result PluginError (Unit {0}) × DbInstances W × Map (ActiveSubscription H) × List H
    close_all shut instances subs = (
      elim (close_loop shut instances.inner none) [ none ↦ ok tt | some e ↦ err e ],
      record instances { inner = [] },
      [],
      abort_all_subscriptions subs,
    )
