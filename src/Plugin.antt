-- ===== src/Plugin.antt =====
-- src: the plugin's commands, for a frontend. Here: its errors.
pub mod Transactions
pub mod Subscriptions
pub mod Databases
pub mod Resolve
pub mod Exit
pub mod Migrations
pub mod Payloads
pub mod Observation
pub mod Attaching
pub mod ErrorCode
use tauri_plugin_sqlite.Prelude.{ℕ, Text}
use tauri_plugin_sqlite.Toolkit.{Error}

pub data PluginError : Type 0 where
  toolkit : Error → PluginError
  migration : Text → PluginError
  invalid_path : Text → PluginError
  path_traversal : Text → PluginError
  database_not_loaded : Text → PluginError
  observation_not_enabled : Text → PluginError
  too_many_databases : ℕ → PluginError
  too_many_subscriptions : ℕ → PluginError
  invalid_config : Text → PluginError
  other : Text → PluginError
