-- ===== src/ConnMgr/Open.antt =====
-- `SqliteDatabase::connect` of crates/sqlx-sqlite-conn-mgr/src/database.rs and config.rs: a database
-- is opened by the registry, if it is not open yet. `P` is a pool of sqlx.
mod Tests
use tauri_plugin_sqlite.Prelude.{
  ℕ, Bool, true, false, not, ◌||◌, List, [], ◌∷◌, ◌++◌, Option, none, some, Text, codes, is_empty,
  if◌then◌else◌, Result, ok, err, ◌>>=◌, ◌>>◌, map_err, FsPath,
}
use tauri_plugin_sqlite.ConnMgr.{ConnError, io, sqlx}
use tauri_plugin_sqlite.ConnMgr.Database.{SqliteDatabase}
use tauri_plugin_sqlite.ConnMgr.Registry.{Registry, is_memory_database, get_or_open_database}

pub record SqliteDatabaseConfig : Type 0 where
  pub max_read_connections : ℕ
  pub idle_timeout_secs : ℕ

abbrev pub default_database_config : SqliteDatabaseConfig
default_database_config = record { max_read_connections = 6; idle_timeout_secs = 30 }

-- `SqliteConnectOptions` and `SqlitePoolOptions`, as far as they are set.
pub record PoolOptions : Type 0 where
  pub filename : Text
  pub read_only : Bool
  pub max_connections : ℕ
  pub min_connections : ℕ
  pub idle_timeout : ℕ

abbrev pub read_options : Text → SqliteDatabaseConfig → PoolOptions
read_options path config = record {
  filename = path;
  read_only = true;
  max_connections = config.max_read_connections;
  min_connections = 0;
  idle_timeout = config.idle_timeout_secs;
}

abbrev pub write_options : Text → SqliteDatabaseConfig → PoolOptions
write_options path config = record {
  filename = path;
  read_only = false;
  max_connections = 1;
  min_connections = 0;
  idle_timeout = config.idle_timeout_secs;
}

module _ {P : Type 0} where
  -- The closure of `connect`: `exists` is `path.exists()`, `create` makes the file with a temporary
  -- connection, and `connect_with` opens a pool.
  unfoldable pub open_database :
      Bool
      → (Text → Result Text (Unit {0}))
      → (PoolOptions → Result Text P)
      → Text
      → SqliteDatabaseConfig
      → Result ConnError (SqliteDatabase P)
  open_database exists create connect_with path config = do
    map_err sqlx (if exists || is_memory_database path then ok tt else create path)
    read_pool ← map_err sqlx (connect_with (read_options path config))
    write_conn ← map_err sqlx (connect_with (write_options path config))
    ok (record {
      read_pool = read_pool;
      write_conn = write_conn;
      wal_initialized = false;
      closed = false;
      path = path;
    })

  -- `earlier` and `r` are the registry under the two locks, as in `get_or_open_database`.
  unfoldable pub connect :
      (FsPath → Result Text FsPath)
      → Bool
      → (Text → Result Text (Unit {0}))
      → (PoolOptions → Result Text P)
      → Text
      → Option SqliteDatabaseConfig
      → (earlier r : Registry (SqliteDatabase P)) → Result ConnError ℕ × Registry (SqliteDatabase P)
  unfolding open_database
  connect canonicalize exists create connect_with path custom_config earlier r =
      let config : SqliteDatabaseConfig = elim custom_config [
        | none ↦ default_database_config
        | some c ↦ c
      ] in
      if is_empty path
      then (err (io (codes "Database path cannot be empty")), r)
      else get_or_open_database canonicalize path
          (open_database exists create connect_with path config) earlier r
