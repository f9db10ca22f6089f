-- ===== src/Plugin/Databases/Tests.antt =====
-- Two databases, of which one is loaded, with a limit of one.
use tauri_plugin_sqlite.Prelude.{
  ℕ, zero, List, [], ◌∷◌, none, codes, text_eq, Map, find, Distinct, Result, ok, err, ◌≡◌, refl,
  arith,
}
use tauri_plugin_sqlite.Plugin.{PluginError, other, too_many_databases}
use tauri_plugin_sqlite.Plugin.Subscriptions.{ActiveSubscription, count_for_db}
use tauri_plugin_sqlite.Plugin.Databases.{DbInstances, load, close_database}
use tauri_plugin_sqlite.Plugin.Databases.Limit.{
  Command, do_load, do_close, run_commands, run_commands-Limited, Limited,
}
use tauri_plugin_sqlite.Plugin.Databases.Closing.{close_database-closes}

abbrev instances : DbInstances ℕ
instances = record { inner = (codes "a.db", 5) ∷ []; max = 1 }

abbrev subs : Map (ActiveSubscription ℕ)
subs =
    (codes "s1", record { abort_handle = 1; db_path = codes "a.db" })
    ∷ (codes "s2", record { abort_handle = 2; db_path = codes "b.db" })
    ∷ []

abbrev shut : ℕ → Result PluginError (Unit {0})
shut zero = err (other (codes "busy"))
shut _ = ok tt

-- The second database is refused.
load_run : (load (ok 6) (codes "b.db") instances instances).0 ≡ err (too_many_databases 1)
unfolding load find text_eq
load_run = refl

abbrev commands : List (Command ℕ)
commands = do_load (ok 6) (codes "b.db") instances ∷ do_close shut (codes "a.db") ∷ []

instances-Limited : Limited instances
unfolding Limited Distinct find
instances-Limited = (omega arith, (refl, tt))

run_commands-Limited_example : Limited (run_commands commands (instances, subs)).0
run_commands-Limited_example = run_commands-Limited commands (instances, subs) instances-Limited

close_database-closes_example :
    let out = close_database shut (codes "a.db") instances subs in
    (find (codes "a.db") (DbInstances.inner out.1) ≡ none)
    × (count_for_db out.2 (codes "a.db") ≡ 0)
    × (find (codes "b.db") (DbInstances.inner out.1) ≡ find (codes "b.db") instances.inner)
    × (count_for_db out.2 (codes "b.db") ≡ count_for_db subs (codes "b.db"))
unfolding Distinct find text_eq
close_database-closes_example =
    close_database-closes shut instances subs (codes "a.db") (codes "b.db") (refl, tt)
      (refl, (refl, tt)) refl
