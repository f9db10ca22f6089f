-- ===== src/Plugin/Migrations/Tests.antt =====
-- Two databases migrate at the same time: the first fails, and its last event is not cached.
use tauri_plugin_sqlite.Prelude.{
  ℕ, ◌≡◌, refl, false, [], ◌∷◌, Text, codes, text_eq, Map, find, put, List, Result, ok, err,
  path_of_text,
}
use tauri_plugin_sqlite.Plugin.Migrations.{
  new_builder, add_migrations, Turn, begins, ends, migration_outcome, run_migrations_for_databases,
}
use tauri_plugin_sqlite.Plugin.Migrations.Turns.{turns_of}
use tauri_plugin_sqlite.Plugin.Migrations.Settled.{HasSettled, at_setup, run_migrations-settles}

abbrev main_db : Text
main_db = codes "main.db"

abbrev cache_db : Text
cache_db = codes "cache.db"

abbrev registered : Map ℕ
registered = (main_db, 1) ∷ (cache_db, 2) ∷ []

abbrev full_disk : Result Text ℕ
full_disk = err (codes "disk full")

abbrev turns : List Turn
turns =
    begins main_db false
    ∷ begins cache_db false
    ∷ ends main_db full_disk
    ∷ ends cache_db (ok 2)
    ∷ []

builder_migrations :
    (add_migrations cache_db 2 (add_migrations main_db 1 new_builder)).migrations ≡ registered
unfolding add_migrations put text_eq
builder_migrations = refl

outcome_of_failure :
    migration_outcome (ok (path_of_text main_db)) (λ p. ok tt) (λ d. err (codes "disk full")) 3
    ≡ full_disk
unfolding migration_outcome
outcome_of_failure = refl

run_migrations-settles_example :
    HasSettled main_db false full_disk (run_migrations_for_databases turns (at_setup registered))
unfolding find text_eq turns_of
run_migrations-settles_example =
    run_migrations-settles main_db false full_disk registered 1 refl turns refl
