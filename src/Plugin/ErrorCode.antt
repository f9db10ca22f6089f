-- ===== src/Plugin/ErrorCode.antt =====
-- `error_code` of crates/sqlx-sqlite-toolkit/src/error.rs and of src/error.rs: what the frontend tells
-- errors apart by. `code_of` is the code of SQLite in an error of sqlx, if it has one.
mod Tests
use tauri_plugin_sqlite.Prelude.{List, [], ◌∷◌, ◌++◌, Option, none, some, Text, codes}
use tauri_plugin_sqlite.Toolkit.{Error}
use tauri_plugin_sqlite.Plugin.{PluginError}

unfoldable pub toolkit_code : (Text → Option Text) → Error → Text
toolkit_code code_of (Error.sqlx e) = elim (code_of e) [
  | some code ↦ codes "SQLITE_" ++ code
  | none ↦ codes "SQLX_ERROR"
]
toolkit_code code_of (Error.connection_manager a) = codes "CONNECTION_ERROR"
toolkit_code code_of (Error.unsupported_datatype a) = codes "UNSUPPORTED_DATATYPE"
toolkit_code code_of (Error.multiple_rows_returned a) = codes "MULTIPLE_ROWS_RETURNED"
toolkit_code code_of (Error.transaction_rollback_failed a b) = codes "TRANSACTION_ROLLBACK_FAILED"
toolkit_code code_of Error.transaction_already_finalized = codes "TRANSACTION_ALREADY_FINALIZED"
toolkit_code code_of (Error.transaction_already_active a) = codes "TRANSACTION_ALREADY_ACTIVE"
toolkit_code code_of (Error.no_active_transaction a) = codes "NO_ACTIVE_TRANSACTION"
toolkit_code code_of Error.invalid_transaction_token = codes "INVALID_TRANSACTION_TOKEN"
toolkit_code code_of (Error.transaction_timed_out a) = codes "TRANSACTION_TIMED_OUT"
toolkit_code code_of (Error.observer a) = codes "OBSERVER_ERROR"
toolkit_code code_of (Error.io a) = codes "IO_ERROR"
toolkit_code code_of Error.empty_keyset_columns = codes "EMPTY_KEYSET_COLUMNS"
toolkit_code code_of Error.invalid_page_size = codes "INVALID_PAGE_SIZE"
toolkit_code code_of (Error.cursor_length_mismatch a b) = codes "CURSOR_LENGTH_MISMATCH"
toolkit_code code_of Error.invalid_pagination_query = codes "INVALID_PAGINATION_QUERY"
toolkit_code code_of (Error.cursor_column_not_found a) = codes "CURSOR_COLUMN_NOT_FOUND"
toolkit_code code_of (Error.invalid_column_name a) = codes "INVALID_COLUMN_NAME"
toolkit_code code_of Error.conflicting_cursors = codes "CONFLICTING_CURSORS"
toolkit_code code_of (Error.other a) = codes "ERROR"

unfoldable pub error_code : (Text → Option Text) → PluginError → Text
unfolding toolkit_code
error_code code_of (PluginError.toolkit e) = toolkit_code code_of e
error_code code_of (PluginError.migration a) = codes "MIGRATION_ERROR"
error_code code_of (PluginError.invalid_path a) = codes "INVALID_PATH"
error_code code_of (PluginError.path_traversal a) = codes "PATH_TRAVERSAL"
error_code code_of (PluginError.database_not_loaded a) = codes "DATABASE_NOT_LOADED"
error_code code_of (PluginError.observation_not_enabled a) = codes "OBSERVATION_NOT_ENABLED"
error_code code_of (PluginError.too_many_databases a) = codes "TOO_MANY_DATABASES"
error_code code_of (PluginError.too_many_subscriptions a) = codes "TOO_MANY_SUBSCRIPTIONS"
error_code code_of (PluginError.invalid_config a) = codes "INVALID_CONFIG"
error_code code_of (PluginError.other a) = codes "ERROR"
