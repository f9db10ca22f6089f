-- ===== src/Observer.antt =====
-- crates/sqlx-sqlite-observer: change notifications. Here: its errors.
pub mod Broker
pub mod Hooks
pub mod Connections
pub mod Stream
pub mod Schema
use tauri_plugin_sqlite.Prelude.{ℕ, Text}
use tauri_plugin_sqlite.ConnMgr.{ConnError}

pub data ObserverError : Type 0 where
  hook_registration : Text → ObserverError
  sqlx : Text → ObserverError
  pool_acquire : ObserverError
  conn_mgr : ConnError → ObserverError
  database : Text → ObserverError
  schema_mismatch : Text → ℕ → ℕ → ObserverError
