-- ===== src/ConnMgr/Registry/Tests.antt =====
-- A registry in which a database is opened, closed and opened again.
use tauri_plugin_sqlite.Prelude.{
  ℕ, false, some, Text, codes, text_eq, Result, ok, err, FsPath, ◌≡◌, refl, path_of_text,
  if◌then◌else◌, find, put, named_parts, split, starts_with, contains, path_text, join,
}
use tauri_plugin_sqlite.ConnMgr.Registry.{
  alive, Registry, canonicalize_path, get_or_open_database, open_locked, upgrade, retain_alive,
  opened, is_memory_database,
}
use tauri_plugin_sqlite.ConnMgr.Registry.Single.{
  Reachable, start, later, ask, empty_registry, Reachable-single,
}

-- A file system in which every absolute path exists, and no other.
abbrev only_absolute : FsPath → Result Text FsPath
only_absolute path = if path.absolute then ok path else err (codes "not found")

abbrev a_db : Text
a_db = codes "/d/a.db"

abbrev ask_a : Registry ℕ → Registry ℕ
ask_a r = (get_or_open_database only_absolute a_db (ok 7) empty_registry r).1

-- Opened twice: the second task looked before the first had opened the database.
asked-Reachable : Reachable only_absolute (ask_a (ask_a empty_registry))
asked-Reachable =
    later (ask_a empty_registry) (ask_a (ask_a empty_registry))
      (later empty_registry (ask_a empty_registry) start
        (ask a_db (ok 7) empty_registry empty_registry))
      (ask a_db (ok 7) empty_registry (ask_a empty_registry))

asked_status : Registry.status (ask_a (ask_a empty_registry)) 0 ≡ alive 7 (some a_db) false
unfolding get_or_open_database is_memory_database text_eq starts_with contains canonicalize_path
    path_of_text named_parts split path_text join upgrade open_locked retain_alive opened find put
asked_status = refl

Reachable-single_example : ◌≡◌ {A = ℕ} 0 0
Reachable-single_example =
    Reachable-single only_absolute (ask_a (ask_a empty_registry)) 0 0 a_db 7 7 asked-Reachable
      asked_status asked_status
