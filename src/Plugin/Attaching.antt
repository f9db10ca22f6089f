-- ===== src/Plugin/Attaching.antt =====
-- src/commands.rs: the specs of attached databases as the frontend gives them, and the commands that
-- write at once. A database is its place in the store of ConnMgr.Attached.
pub mod Tracked
mod Tests
use tauri_plugin_sqlite.Prelude.{
  ℕ, Bool, true, false, List, [], ◌∷◌, ◌++◌, Option, none, some, Text, codes, Map, find,
  if◌then◌else◌, Result, ok, err, ◌>>=◌, ok_or, map_err,
}
use tauri_plugin_sqlite.ConnMgr.Attached.{AttachedSpec, AttachedMode, read_only, read_write}
use tauri_plugin_sqlite.Toolkit.{Error}
use tauri_plugin_sqlite.Toolkit.Wrapper.{DatabaseWrapper}
use tauri_plugin_sqlite.Toolkit.Transactions.Regular.{insert_regular, remove_regular}
use tauri_plugin_sqlite.Plugin.{PluginError, toolkit, database_not_loaded, other}

pub data AttachedDatabaseMode : Type 0 where
  only_reads : AttachedDatabaseMode
  reads_and_writes : AttachedDatabaseMode

pub record AttachedDatabaseSpec : Type 0 where
  pub database_path : Text
  pub schema_name : Text
  pub mode : AttachedDatabaseMode

abbrev pub mode_of : AttachedDatabaseMode → AttachedMode
mode_of only_reads = read_only
mode_of reads_and_writes = read_write

unfoldable pub resolve_attached_specs :
    List AttachedDatabaseSpec → Map (DatabaseWrapper ℕ) → Result PluginError (List AttachedSpec)
resolve_attached_specs [] db_instances = ok []
resolve_attached_specs (spec ∷ specs) db_instances = do
  wrapper ← ok_or (find spec.database_path db_instances) (database_not_loaded spec.database_path)
  resolved ← resolve_attached_specs specs db_instances
  ok (
      record { database = wrapper.inner; schema_name = spec.schema_name; mode = mode_of spec.mode }
      ∷ resolved)

-- `attached`, if it is given.
unfoldable pub resolve_attached :
    Option (List AttachedDatabaseSpec)
    → Map (DatabaseWrapper ℕ)
    → Result PluginError (List AttachedSpec)
unfolding resolve_attached_specs
resolve_attached none db_instances = ok []
resolve_attached (some specs) db_instances = resolve_attached_specs specs db_instances

-- The command `execute`; `run` is the builder's `execute` with the attached databases. `fetch_all`,
-- `fetch_one` and `fetch_page` are the same with their own builders.
unfoldable pub run_with_attached :
    {A : Type 0}
    → (DatabaseWrapper ℕ → List AttachedSpec → Result Error A)
    → Text
    → Option (List AttachedDatabaseSpec)
    → Map (DatabaseWrapper ℕ)
    → Result PluginError A
unfolding resolve_attached
run_with_attached run db attached instances = do
  wrapper ← ok_or (find db instances) (database_not_loaded db)
  resolved ← resolve_attached attached instances
  map_err toolkit (run wrapper resolved)

-- How the task of a transaction ends: it runs to its end, or is aborted, or panics.
pub data Joined (A : Type 0) : Type 0 where
  returned : Result Error A → Joined A
  cancelled : Joined A
  panicked : Text → Joined A

-- What happens to the registry of tasks from the spawn on. A task that runs to its end removes its
-- key; `early` says whether it does before the command has put its handle there.
unfoldable pub track : {A H : Type 0} → Bool → Text → H → Joined A → Map H → Map H
track early tx_key abort_handle (returned r) txs =
    if early
    then insert_regular tx_key abort_handle (remove_regular tx_key txs)
    else remove_regular tx_key (insert_regular tx_key abort_handle txs)
track early tx_key abort_handle cancelled txs =
    remove_regular tx_key (insert_regular tx_key abort_handle txs)
track early tx_key abort_handle (panicked e) txs =
    remove_regular tx_key (insert_regular tx_key abort_handle txs)

unfoldable pub join_result : {A : Type 0} → Joined A → Result PluginError A
join_result (returned r) = map_err toolkit r
join_result cancelled = err (other (codes "Transaction aborted due to app exit"))
join_result (panicked e) = err (other (codes "Transaction task panicked: " ++ e))

-- The command `execute_transaction`: `id` is the new id, and `task` how the task ends.
unfoldable pub execute_transaction :
    {A H : Type 0}
    → (DatabaseWrapper ℕ → List AttachedSpec → Joined A)
    → Bool
    → Text
    → Text
    → H
    → Option (List AttachedDatabaseSpec)
    → Map (DatabaseWrapper ℕ)
    → Map H
    → Result PluginError A × Map H
unfolding resolve_attached track join_result
execute_transaction task early db id abort_handle attached instances txs =
    let tx_key = db ++ (codes ":" ++ id) in
    elim (ok_or (find db instances) (database_not_loaded db)) [
      | err e ↦ (err e, txs)
      | ok wrapper ↦ elim (resolve_attached attached instances) [
        | err e ↦ (err e, txs)
        | ok specs ↦ (
          join_result (task wrapper specs),
          track early tx_key abort_handle (task wrapper specs) txs,
        )
      ]
    ]
