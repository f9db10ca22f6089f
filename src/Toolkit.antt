-- ===== src/Toolkit.antt =====
-- crates/sqlx-sqlite-toolkit: queries, pagination and transactions. Here: its errors.
pub mod Row
pub mod Pagination
pub mod FetchPage
pub mod Transactions
pub mod Execution
pub mod Queries
pub mod Writes
pub mod Json
pub mod Decode
pub mod Wrapper
use tauri_plugin_sqlite.Prelude.{ℕ, Text}
use tauri_plugin_sqlite.ConnMgr.{ConnError}
use tauri_plugin_sqlite.Observer.{ObserverError}

pub data Error : Type 0 where
  sqlx : Text → Error
  connection_manager : ConnError → Error
  unsupported_datatype : Text → Error
  multiple_rows_returned : ℕ → Error
  transaction_rollback_failed : Text → Text → Error
  transaction_already_finalized : Error
  transaction_already_active : Text → Error
  no_active_transaction : Text → Error
  invalid_transaction_token : Error
  transaction_timed_out : Text → Error
  observer : ObserverError → Error
  io : Text → Error
  empty_keyset_columns : Error
  invalid_page_size : Error
  cursor_length_mismatch : ℕ → ℕ → Error
  invalid_pagination_query : Error
  cursor_column_not_found : Text → Error
  invalid_column_name : Text → Error
  conflicting_cursors : Error
  other : Text → Error
