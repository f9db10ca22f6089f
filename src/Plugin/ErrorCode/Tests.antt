-- ===== src/Plugin/ErrorCode/Tests.antt =====
-- A constraint that fails has SQLite's code.
use tauri_plugin_sqlite.Prelude.{◌≡◌, refl, none, some, codes}
use tauri_plugin_sqlite.Toolkit.{Error, empty_keyset_columns}
use tauri_plugin_sqlite.Plugin.{toolkit}
use tauri_plugin_sqlite.Plugin.ErrorCode.{error_code}

constraint :
    error_code (λ e. some (codes "1555")) (toolkit (Error.sqlx (codes "UNIQUE constraint failed")))
    ≡ codes "SQLITE_1555"
unfolding error_code
constraint = refl

no_keyset : error_code (λ e. none) (toolkit empty_keyset_columns) ≡ codes "EMPTY_KEYSET_COLUMNS"
unfolding error_code
no_keyset = refl
