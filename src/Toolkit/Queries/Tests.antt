-- ===== src/Toolkit/Queries/Tests.antt =====
-- A query that gives two rows, with a database attached.
use tauri_plugin_sqlite.Prelude.{ℕ, List, [], ◌∷◌, ◌++◌, Text, Result, ok, err, ◌≡◌, ◌⊎◌, refl}
use tauri_plugin_sqlite.ConnMgr.{ConnError}
use tauri_plugin_sqlite.ConnMgr.Attached.{release_reader}
use tauri_plugin_sqlite.ConnMgr.Attached.Schemas.{names_of}
use tauri_plugin_sqlite.ConnMgr.Attached.Reader.{sorted}
use tauri_plugin_sqlite.ConnMgr.Attached.SmallSqlite.{
  test_sqlx, test_attaches, test_store, test_guard, test_out, reads, connection, reader_runs,
  reader_acquires,
}
use tauri_plugin_sqlite.Toolkit.{Error, connection_manager}
use tauri_plugin_sqlite.Toolkit.Queries.{fetch_attached}
use tauri_plugin_sqlite.Toolkit.Queries.Restored.{fetch_attached-restores}

abbrev two_rows : List Text → Result Text (List ℕ) × List Text
two_rows c = (ok (1 ∷ 2 ∷ []), c)

fetch_attached-restores_example :
    let out = fetch_attached test_sqlx two_rows ok 0 (reads ∷ []) test_store in
    (back : List Text) × (out.1 ≡ release_reader test_sqlx 0 back test_out.1)
    × (((a : List ℕ) × (out.0 ≡ ok a) × (back ≡ connection))
        ⊎ ((e : ConnError) × (out.0 ≡ err (connection_manager e)))
        ⊎ ((e : Error) × (out.0 ≡ err e)
            × (back
                ≡ connection
                  ++ names_of (sorted test_sqlx test_attaches 0 (reads ∷ []) test_store))))
fetch_attached-restores_example =
    fetch_attached-restores test_sqlx test_attaches two_rows (λ c. refl) ok 0 (reads ∷ [])
      test_store connection test_guard reader_acquires reader_runs
