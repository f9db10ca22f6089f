-- ===== src/Plugin/Observation/Tests.antt =====
-- A database is loaded, observed, subscribed to, and observed anew. A database is a unit value and a
-- handle a number.
use tauri_plugin_sqlite.Prelude.{
  ℕ, ◌≡◌, refl, List, [], ◌∷◌, none, some, Text, codes, text_eq, ok, err, arith, find, Distinct,
}
use tauri_plugin_sqlite.Toolkit.Wrapper.{DatabaseWrapper}
use tauri_plugin_sqlite.Plugin.{observation_not_enabled}
use tauri_plugin_sqlite.Plugin.Subscriptions.{count_for_db}
use tauri_plugin_sqlite.Plugin.Databases.{DbInstances}
use tauri_plugin_sqlite.Plugin.Observation.{Shared, subscribe, observer_config, wrong_capacity}
use tauri_plugin_sqlite.Plugin.Observation.Steps.{
  ObservationCommand, do_load, do_observe, do_subscribe, run_all, InStep,
}
use tauri_plugin_sqlite.Plugin.Observation.Histories.{run_all-InStep}

abbrev posts : Text
posts = codes "posts.db"

abbrev nothing_loaded : DbInstances (DatabaseWrapper (Unit {0}))
nothing_loaded = record { inner = []; max = 2 }

abbrev idle : Shared (Unit {0}) ℕ
idle = record { instances = nothing_loaded; subs = [] }

abbrev unobserved : DatabaseWrapper (Unit {0})
unobserved = record { inner = tt; observer = none }

abbrev session : List (ObservationCommand (Unit {0}) ℕ)
session =
    do_load (ok unobserved) posts nothing_loaded
    ∷ do_observe posts (codes "posts" ∷ []) none
    ∷ do_subscribe posts [] (codes "a") 1
    ∷ do_observe posts (codes "tags" ∷ []) none
    ∷ []

run_all-InStep_example :
    (end : Shared (Unit {0}) ℕ) × (run_all session idle ≡ some end) × InStep end
unfolding count_for_db Distinct
run_all-InStep_example =
    run_all-InStep session idle
      (record { served = tt; limited = λ db. omega arith; different = tt })

abbrev loaded : Shared (Unit {0}) ℕ
loaded = record idle { instances = record nothing_loaded { inner = (posts, unobserved) ∷ [] } }

too_early : (subscribe 0 posts [] (codes "a") 1 loaded).0 ≡ err (observation_not_enabled posts)
unfolding subscribe find text_eq
too_early = refl

no_capacity :
    observer_config [] (some (record { channel_capacity = some 0; capture_values = none }))
    ≡ err (wrong_capacity 0)
unfolding observer_config
no_capacity = refl
