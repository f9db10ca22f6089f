-- ===== src/ConnMgr/Database.antt =====
-- crates/sqlx-sqlite-conn-mgr/src/database.rs: a database with a pool of readers and a pool of one
-- writer. `P` is a pool of sqlx and `C` a connection; `F` is the file system.
pub mod Writer
pub mod Removal
use tauri_plugin_sqlite.Prelude.{
  Bool, true, false, not, ◌&&◌, List, [], ◌∷◌, ◌++◌, Option, none, some, Text, codes, if◌then◌else◌,
  Result, ok, err, ◌>>=◌, map_err, reverse, ◌==◌, ℕ,
}
use tauri_plugin_sqlite.ConnMgr.{ConnError, io, database_closed, migration}
use tauri_plugin_sqlite.ConnMgr

-- What the crate calls of sqlx. Acquiring waits until the pool has a connection and gives the pool
-- that is left, or fails; a connection that is dropped goes back to its pool. A statement gives the
-- connection as SQLite leaves it.
pub record Sqlx (P C : Type 0) : Type 0 where
  pub acquire : P → Result Text C × P
  pub release : C → P → P
  pub close_pool : P → P
  pub execute : Text → C → Result Text (Unit {0}) × C

pub record SqliteDatabase (P : Type 0) : Type 0 where
  pub read_pool : P
  pub write_conn : P
  pub wal_initialized : Bool
  pub closed : Bool
  pub path : Text

-- `SqliteDatabase::read_pool`
abbrev pub get_read_pool : {P : Type 0} → SqliteDatabase P → Result ConnError P
get_read_pool db = if db.closed then err database_closed else ok db.read_pool

module _ {P C : Type 0} (sqlx : Sqlx P C) where
  -- The two statements of the first use: the first error ends them.
  unfoldable pub initialize_wal : C → Result Text (Unit {0}) × C
  initialize_wal conn =
      let wal = sqlx.execute (codes "PRAGMA journal_mode = WAL") conn in
      elim wal.0 [
        | err e ↦ (err e, wal.1)
        | ok _ ↦ sqlx.execute (codes "PRAGMA synchronous = NORMAL") wal.1
      ]

  -- The writer, or the error; on an error a connection that was acquired is dropped.
  unfoldable pub acquire_writer : SqliteDatabase P → Result ConnError C × SqliteDatabase P
  unfolding initialize_wal
  acquire_writer db =
      let got = sqlx.acquire db.write_conn in
      if db.closed then (err database_closed, db) else elim got.0 [
        | err e ↦ (err (ConnError.sqlx e), record db { write_conn = got.1 })
        | ok conn ↦
            if db.wal_initialized
            then (ok conn, record db { write_conn = got.1 })
            else let done = initialize_wal conn in
              elim done.0 [
                | err e ↦ (
                  err (ConnError.sqlx e),
                  record db { write_conn = sqlx.release done.1 got.1; wal_initialized = true },
                )
                | ok _ ↦ (ok done.1, record db { write_conn = got.1; wal_initialized = true })
              ]
      ]

  -- `migrate` is `migrator.run` on the pool of the writer.
  unfoldable pub run_migrations :
      (P → Result Text (Unit {0}) × P)
      → SqliteDatabase P
      → Result ConnError (Unit {0}) × SqliteDatabase P
  unfolding acquire_writer
  run_migrations migrate db =
      let got = acquire_writer db in
      elim got.0 [
        | err e ↦ (err e, got.1)
        | ok writer ↦
            let free = sqlx.release writer got.1.write_conn in
            let ran = migrate free in (map_err migration ran.0, record got.1 { write_conn = ran.1 })
      ]

  -- The checkpoint, whose errors are dropped.
  unfoldable pub checkpoint : P → P
  checkpoint pool =
      let got = sqlx.acquire pool in
      elim got.0 [
        | err e ↦ got.1
        | ok conn ↦
            sqlx.release (sqlx.execute (codes "PRAGMA wal_checkpoint(TRUNCATE)") conn).1 got.1
      ]

  -- The database behind the call; taking it out of the registry is ConnMgr.Registry's.
  unfoldable pub close : SqliteDatabase P → SqliteDatabase P
  unfolding checkpoint
  close db = record db {
    closed = true;
    read_pool = sqlx.close_pool db.read_pool;
    write_conn =
        sqlx.close_pool (if db.wal_initialized then checkpoint db.write_conn else db.write_conn);
  }
