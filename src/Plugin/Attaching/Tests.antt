-- ===== src/Plugin/Attaching/Tests.antt =====
-- A transaction that ends before it is tracked, with one attached database.
use tauri_plugin_sqlite.Prelude.{
  ℕ, ◌≡◌, refl, true, false, List, [], ◌∷◌, ◌++◌, none, some, Text, codes, text_eq, Map, find,
  Distinct, ok, err,
}
use tauri_plugin_sqlite.ConnMgr.Attached.{AttachedSpec, read_only}
use tauri_plugin_sqlite.Toolkit.Wrapper.{DatabaseWrapper}
use tauri_plugin_sqlite.Plugin.{database_not_loaded}
use tauri_plugin_sqlite.Plugin.Attaching.{
  AttachedDatabaseSpec, only_reads, resolve_attached_specs, resolve_attached, Joined, returned,
  join_result, execute_transaction, run_with_attached,
}
use tauri_plugin_sqlite.Plugin.Attaching.Tracked.{execute_transaction-tracks}

abbrev main_db : Text
main_db = codes "main.db"

abbrev main_wrapper : DatabaseWrapper ℕ
main_wrapper = record { inner = 0; observer = none }

abbrev loaded : Map (DatabaseWrapper ℕ)
loaded = (main_db, main_wrapper) ∷ ((codes "old.db", record { inner = 1; observer = none }) ∷ [])

abbrev with_old : List AttachedDatabaseSpec
with_old =
    record { database_path = codes "old.db"; schema_name = codes "old"; mode = only_reads } ∷ []

abbrev old_spec : List AttachedSpec
old_spec = record { database = 1; schema_name = codes "old"; mode = read_only } ∷ []

resolves : resolve_attached_specs with_old loaded ≡ ok old_spec
unfolding resolve_attached_specs find text_eq
resolves = refl

not_loaded :
    run_with_attached (λ w specs. ok tt) (codes "x.db") none loaded
    ≡ err (database_not_loaded (codes "x.db"))
unfolding run_with_attached find text_eq
not_loaded = refl

abbrev quick : DatabaseWrapper ℕ → List AttachedSpec → Joined ℕ
quick w specs = returned (ok 3)

execute_transaction-tracks_example :
    let out =
      execute_transaction {H = ℕ} quick true main_db (codes "1") 9 (some with_old) loaded [] in
    let key = main_db ++ (codes ":" ++ codes "1") in
    (out.0 ≡ join_result (quick main_wrapper old_spec))
    × (find key out.1 ≡ some 9)
    × ((k : Text) → text_eq key k ≡ false → find k out.1 ≡ find k [])
unfolding find text_eq resolve_attached Distinct
execute_transaction-tracks_example =
    execute_transaction-tracks quick main_db (codes "1") 9 (some with_old) loaded [] main_wrapper
      old_spec true refl refl tt
