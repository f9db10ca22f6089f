-- ===== src/ConnMgr/Open/Tests.antt =====
-- A new file, with a pool for its options, and an empty path.
use tauri_plugin_sqlite.Prelude.{◌≡◌, refl, true, false, [], none, Text, codes, Result, ok, err}
use tauri_plugin_sqlite.ConnMgr.{io}
use tauri_plugin_sqlite.ConnMgr.Database.{SqliteDatabase}
use tauri_plugin_sqlite.ConnMgr.Registry.{Registry, gone}
use tauri_plugin_sqlite.ConnMgr.Open.{
  PoolOptions, open_database, connect, default_database_config, read_options, write_options,
}

abbrev nothing_open : Registry (SqliteDatabase PoolOptions)
nothing_open = record { entries = []; status = λ h. gone; next = 0 }

abbrev any_pool : PoolOptions → Result Text PoolOptions
any_pool options = ok options

opened :
    open_database true
      (λ path. err (codes "exists"))
      any_pool
      (codes "a.db")
      default_database_config
    ≡ ok (record {
      read_pool = read_options (codes "a.db") default_database_config;
      write_conn = write_options (codes "a.db") default_database_config;
      wal_initialized = false;
      closed = false;
      path = codes "a.db";
    })
unfolding open_database
opened = refl

no_path :
    (connect (λ path. ok path) true (λ path. ok tt) any_pool [] none nothing_open nothing_open).0
    ≡ err (io (codes "Database path cannot be empty"))
unfolding connect
no_path = refl
