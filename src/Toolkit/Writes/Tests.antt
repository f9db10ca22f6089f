-- ===== src/Toolkit/Writes/Tests.antt =====
-- A statement with a database attached for writing, which succeeds, and one which fails.
use tauri_plugin_sqlite.Prelude.{ℕ, List, [], ◌∷◌, some, Text, Result, ok, ◌≡◌}
use tauri_plugin_sqlite.ConnMgr.Attached.{Store}
use tauri_plugin_sqlite.ConnMgr.Attached.Locks.{free}
use tauri_plugin_sqlite.ConnMgr.Attached.SmallSqlite.{test_sqlx, test_pools, test_store, writes}
use tauri_plugin_sqlite.Toolkit.{Error}
use tauri_plugin_sqlite.Toolkit.Writes.{execute_attached}
use tauri_plugin_sqlite.Toolkit.Writes.Released.{execute_attached-releases}

abbrev one_row : List Text → Result Text ℕ × List Text
one_row c = (ok 1, c)

execute_attached-releases_example :
    (out : Result Error ℕ × Store (List (List Text))) × (execute_attached test_sqlx one_row 0
        (writes 1 ∷ [])
        test_store
      ≡ some out)
    × ((e : ℕ) → free test_sqlx test_pools out.1 e ≡ free test_sqlx test_pools test_store e)
execute_attached-releases_example =
    execute_attached-releases test_sqlx test_pools one_row 0 (writes 1 ∷ []) test_store
