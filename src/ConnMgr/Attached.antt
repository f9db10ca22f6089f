-- ===== src/ConnMgr/Attached.antt =====
-- crates/sqlx-sqlite-conn-mgr/src/attached.rs: connections with other databases attached. The
-- databases stand in a store, and an `Arc` to one is its place there.
pub mod LockOrder
pub mod Locks
pub mod Guards
pub mod Outcome
pub mod Sql
pub mod Schemas
pub mod Reader
pub mod Deadlock
pub mod SmallSqlite
mod Tests
use tauri_plugin_sqlite.Prelude.{
  ℕ, Bool, true, false, not, ◌&&◌, ◌||◌, List, [], ◌∷◌, ◌++◌, map, Option, none, some, Text, codes,
  text_eq, any, all, is_empty, if◌then◌else◌, Result, ok, err, ◌>>=◌, ◌>>◌, ◌==◌, leb, double,
  is_ascii_digit, is_ascii_alphanumeric, text_ltb, insert_by, sort_by,
}
use tauri_plugin_sqlite.ConnMgr.{
  ConnError, cannot_attach_read_write_to_reader, invalid_schema_name, duplicate_attached_database,
}
use tauri_plugin_sqlite.ConnMgr.Database.{Sqlx, SqliteDatabase, get_read_pool, acquire_writer}

abbrev pub Store : Type 0 → Type 0
Store P = ℕ → SqliteDatabase P

-- The store with another database at a place.
abbrev pub update : {P : Type 0} → ℕ → SqliteDatabase P → Store P → Store P
update d db store e = if e == d then db else store e

pub data AttachedMode : Type 0 where
  read_only : AttachedMode
  read_write : AttachedMode

pub record AttachedSpec : Type 0 where
  pub database : ℕ
  pub schema_name : Text
  pub mode : AttachedMode

abbrev pub is_read_write : AttachedSpec → Bool
is_read_write spec = elim spec.mode [ read_only ↦ false | read_write ↦ true ]

-- A write guard, with the database to whose pool it returns.
pub record WriteGuard (C : Type 0) : Type 0 where
  pub home : ℕ
  pub conn : C

pub record AttachedReadConnection (C : Type 0) : Type 0 where
  pub conn : C
  pub schema_names : List Text

pub record AttachedWriteGuard (C : Type 0) : Type 0 where
  pub writer : WriteGuard C
  pub held_writers : List (WriteGuard C)
  pub schema_names : List Text

-- `name.chars().next()` of the empty name is behind the first test.
abbrev starts_with_digit : Text → Bool
starts_with_digit [] = false
starts_with_digit (c ∷ cs) = is_ascii_digit c

unfoldable pub is_valid_schema_name : Text → Bool
is_valid_schema_name name =
    not (is_empty name)
    && (all (λ c. is_ascii_alphanumeric c || c == b'_') name && not (starts_with_digit name))

abbrev pub single_quote : ℕ
single_quote = 39

-- `path.replace("'", "''")`
unfoldable pub escape_path : Text → Text
unfolding double
escape_path path = double single_quote path

unfoldable pub attach_sql : Text → Text → Text
unfolding escape_path
attach_sql path schema_name =
    codes "ATTACH DATABASE '"
    ++ (escape_path path ++ (codes "' AS \"" ++ (schema_name ++ codes "\"")))

unfoldable pub detach_sql : Text → Text
detach_sql schema_name = codes "DETACH DATABASE \"" ++ (schema_name ++ codes "\"")

-- The loops over `seen_paths`: the first path that was there before.
unfoldable pub first_duplicate : List Text → List Text → Option Text
first_duplicate seen [] = none
first_duplicate seen (path ∷ paths) =
    let rest = first_duplicate (path ∷ seen) paths in
    if any (text_eq path) seen then some path else rest

-- The loop over the schema names.
unfoldable pub first_invalid_schema : List AttachedSpec → Option Text
first_invalid_schema [] = none
first_invalid_schema (spec ∷ specs) =
    let rest = first_invalid_schema specs in
    if is_valid_schema_name spec.schema_name then rest else some spec.schema_name

abbrev pub path_of : {P : Type 0} → Store P → ℕ → Text
path_of store d = (store d).path

-- `db_entries` before it is sorted: the databases that need a writer.
unfoldable pub read_write_databases : List AttachedSpec → List ℕ
read_write_databases [] = []
read_write_databases (spec ∷ specs) =
    let rest = read_write_databases specs in
    if is_read_write spec then spec.database ∷ rest else rest

unfoldable pub db_entries : ℕ → List AttachedSpec → List ℕ
unfolding read_write_databases
db_entries main_db specs = main_db ∷ read_write_databases specs

-- The order in which the writers are acquired.
unfoldable pub lock_order : {P : Type 0} → Store P → ℕ → List AttachedSpec → List ℕ
unfolding db_entries
lock_order store main_db specs = sort_by (path_of store) (db_entries main_db specs)

-- `all_writers.remove(main_writer_idx)`: the first writer whose entry has the main path, and the
-- others. The writers stand in the order of the entries.
unfoldable pub take_main :
    {P C : Type 0}
    → Store P
    → Text
    → List (WriteGuard C)
    → Option (WriteGuard C × List (WriteGuard C))
take_main store main_path [] = none
take_main store main_path (guard ∷ guards) =
    let rest = take_main store main_path guards in
    if text_eq (path_of store guard.home) main_path
    then some (guard, guards)
    else elim rest [ none ↦ none | some found ↦ some (found.0, guard ∷ found.1) ]

module _ {P C : Type 0} (sqlx : Sqlx P C) where
  -- A connection is dropped.
  abbrev pub release_writer : WriteGuard C → Store P → Store P
  release_writer guard store =
      let db = store guard.home in
      update guard.home (record db { write_conn = sqlx.release guard.conn db.write_conn }) store

  unfoldable pub release_writers : List (WriteGuard C) → Store P → Store P
  release_writers [] store = store
  release_writers (guard ∷ guards) store = release_writers guards (release_writer guard store)

  abbrev pub release_reader : ℕ → C → Store P → Store P
  release_reader d conn store =
      let db = store d in update d (record db { read_pool = sqlx.release conn db.read_pool }) store

  -- `main_db.read_pool()?.acquire().await?`
  unfoldable pub acquire_reader : ℕ → Store P → Result ConnError C × Store P
  acquire_reader d store =
      let db = store d in
      elim (get_read_pool db) [
        | err e ↦ (err e, store)
        | ok pool ↦
            let got = sqlx.acquire pool in
            let left = update d (record db { read_pool = got.1 }) store in
            elim got.0 [ err e ↦ (err (ConnError.sqlx e), left) | ok conn ↦ (ok conn, left) ]
      ]

  -- The loop of the reader over the sorted specs: the names attached, and the connection.
  unfoldable pub attach_readers : Store P → List AttachedSpec → C → Result ConnError (List Text) × C
  attach_readers store [] conn = (ok [], conn)
  attach_readers store (spec ∷ specs) conn =
      let done = sqlx.execute (attach_sql (path_of store spec.database) spec.schema_name) conn in
      let rest = attach_readers store specs done.1 in
      if not (is_valid_schema_name spec.schema_name)
      then (err (invalid_schema_name spec.schema_name), conn)
      else if is_read_write spec
      then (err cannot_attach_read_write_to_reader, conn)
      else elim done.0 [
        | err e ↦ (err (ConnError.sqlx e), done.1)
        | ok _ ↦ (rest.0 >>= λ names. ok (spec.schema_name ∷ names), rest.1)
      ]

  -- An error drops the connection, which goes back to the pool of the main database as it is.
  unfoldable pub acquire_reader_with_attached :
      ℕ → List AttachedSpec → Store P → Result ConnError (AttachedReadConnection C) × Store P
  unfolding acquire_reader
  acquire_reader_with_attached main_db specs store =
      let got = acquire_reader main_db store in
      elim got.0 [
        | err e ↦ (err e, got.1)
        | ok conn ↦
            let sorted = sort_by (λ spec. path_of store spec.database) specs in
            let done = attach_readers got.1 sorted conn in
            elim (first_duplicate [] (map (λ spec. path_of store spec.database) sorted)) [
              | some path ↦
                  (err (duplicate_attached_database path), release_reader main_db conn got.1)
              | none ↦ elim done.0 [
                | err e ↦ (err e, release_reader main_db done.1 got.1)
                | ok names ↦ (ok (record { conn = done.1; schema_names = names }), got.1)
              ]
            ]
      ]

  -- The loop over the sorted entries. An error drops the writers that are held already.
  unfoldable pub acquire_all :
      List ℕ → List (WriteGuard C) → Store P → Result ConnError (List (WriteGuard C)) × Store P
  unfolding release_writers
  acquire_all [] held store = (ok held, store)
  acquire_all (d ∷ ds) held store =
      let got = acquire_writer sqlx (store d) in
      let left = update d got.1 store in
      elim got.0 [
        | err e ↦ (err e, release_writers held left)
        | ok conn ↦ acquire_all ds (held ++ record { home = d; conn = conn } ∷ []) left
      ]

  -- The loop of the writer over the specs, in their own order.
  unfoldable pub attach_writers : Store P → List AttachedSpec → C → Result ConnError (List Text) × C
  attach_writers store [] conn = (ok [], conn)
  attach_writers store (spec ∷ specs) conn =
      let done = sqlx.execute (attach_sql (path_of store spec.database) spec.schema_name) conn in
      let rest = attach_writers store specs done.1 in
      elim done.0 [
        | err e ↦ (err (ConnError.sqlx e), done.1)
        | ok _ ↦ (rest.0 >>= λ names. ok (spec.schema_name ∷ names), rest.1)
      ]

  -- The result of the last part: `expect` fails only if the main path is not among the entries,
  -- which `none` stands for.
  unfoldable pub attach_to_main :
      List AttachedSpec
      → Option (WriteGuard C × List (WriteGuard C))
      → Store P
      → Option (Result ConnError (AttachedWriteGuard C) × Store P)
  unfolding attach_writers release_writers
  attach_to_main specs none store = none
  attach_to_main specs (some found) store =
      let done = attach_writers store specs (WriteGuard.conn found.0) in
      let writer = record found.0 { conn = done.1 } in
      elim done.0 [
        | err e ↦ some (err e, release_writers (found.1 ++ writer ∷ []) store)
        | ok names ↦
            some
              (ok (record { writer = writer; held_writers = found.1; schema_names = names }), store)
      ]

  unfoldable pub acquire_writer_with_attached :
      ℕ → List AttachedSpec → Store P → Option (Result ConnError (AttachedWriteGuard C) × Store P)
  unfolding lock_order acquire_all take_main attach_to_main
  acquire_writer_with_attached main_db specs store =
      let got = acquire_all (lock_order store main_db specs) [] store in
      elim (first_invalid_schema specs) [
        | some name ↦ some (err (invalid_schema_name name), store)
        | none ↦ elim (first_duplicate [] (map (path_of store) (db_entries main_db specs))) [
          | some path ↦ some (err (duplicate_attached_database path), store)
          | none ↦ elim got.0 [
            | err e ↦ some (err e, got.1)
            | ok writers ↦
                attach_to_main specs (take_main got.1 (path_of store main_db) writers) got.1
          ]
        ]
      ]

  -- The loop of `detach_all`.
  unfoldable pub detach_loop : List Text → C → Result ConnError (Unit {0}) × C
  detach_loop [] conn = (ok tt, conn)
  detach_loop (schema_name ∷ names) conn =
      let done = sqlx.execute (detach_sql schema_name) conn in
      let rest = detach_loop names done.1 in
      elim done.0 [ err e ↦ (err (ConnError.sqlx e), done.1) | ok _ ↦ rest ]

  -- `AttachedReadConnection::detach_all`, which drops the connection.
  unfoldable pub detach_reader :
      ℕ → AttachedReadConnection C → Store P → Result ConnError (Unit {0}) × Store P
  unfolding detach_loop
  detach_reader main_db guard store =
      let done = detach_loop guard.schema_names guard.conn in
      (done.0, release_reader main_db done.1 store)

  -- `AttachedWriteGuard::detach_all`, which drops the writer and the writers that are held.
  unfoldable pub detach_writer :
      AttachedWriteGuard C → Store P → Result ConnError (Unit {0}) × Store P
  unfolding detach_loop release_writers
  detach_writer guard store =
      let done = detach_loop guard.schema_names guard.writer.conn in
      let writer : WriteGuard C = record { home = guard.writer.home; conn = done.1 } in
      (done.0, release_writers (writer ∷ guard.held_writers) store)
