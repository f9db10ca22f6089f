-- ===== src/Toolkit/Pagination.antt =====
-- crates/sqlx-sqlite-toolkit/src/pagination.rs: keyset pagination. Here: the keyset.
mod Tests
pub mod Identifiers
pub mod Scan
pub mod Condition
pub mod Query
use tauri_plugin_sqlite.Prelude.{◌≡◌, refl, List, map, Text}

pub data SortDirection : Type 0 where
  ascending descending : SortDirection

unfoldable pub reversed : SortDirection → SortDirection
reversed ascending = descending
reversed descending = ascending

pub record KeysetColumn : Type 0 where
  pub name : Text
  pub direction : SortDirection

unfoldable pub reversed_keyset : List KeysetColumn → List KeysetColumn
unfolding reversed
reversed_keyset = map {A = KeysetColumn} (λ k. record k { direction = reversed k.direction })
