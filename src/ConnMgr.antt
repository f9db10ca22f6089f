-- ===== src/ConnMgr.antt =====
-- crates/sqlx-sqlite-conn-mgr: the connection manager. Here: its errors.
pub mod Database
pub mod Attached
pub mod Registry
pub mod Open
use tauri_plugin_sqlite.Prelude.{Text}

-- What the program keeps of an error of a library that it calls: the message.
pub data ConnError : Type 0 where
  io : Text → ConnError
  sqlx : Text → ConnError
  migration : Text → ConnError
  database_closed : ConnError
  cannot_attach_read_write_to_reader : ConnError
  invalid_schema_name : Text → ConnError
  duplicate_attached_database : Text → ConnError
