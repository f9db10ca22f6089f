-- ===== src/ConnMgr/Registry.antt =====
-- crates/sqlx-sqlite-conn-mgr/src/registry.rs: the databases that are open, by canonical path. The
-- registry keeps weak references: a database lives as long as a handle to it is held somewhere. `A`
-- is a database.
pub mod Single
pub mod BareName
mod Tests
use tauri_plugin_sqlite.Prelude.{
  ℕ, suc, Bool, true, false, not, ◌||◌, List, [], ◌∷◌, ◌++◌, Option, none, some, Text, codes,
  text_eq, if◌then◌else◌, Result, ok, err, ◌>>=◌, map_err, ◌==◌, Map, find, put, erase, FsPath,
  parent, file_name, path_text, path_of_text, starts_with, contains, ok_or,
}
use tauri_plugin_sqlite.ConnMgr.{ConnError, io}

unfoldable pub is_memory_database : Text → Bool
unfolding starts_with contains
is_memory_database path =
    text_eq path (codes ":memory:")
    || (starts_with (codes "file::memory:") path || contains (codes "mode=memory") path)

-- A handle is the number under which a database was opened. It is gone when no one holds it.
-- Otherwise it has its database, the path under which the registry got it, if it did, and whether
-- it was closed.
pub data Status (A : Type 0) : Type 0 where
  gone : Status A
  alive : A → Option Text → Bool → Status A

pub record Registry (A : Type 0) : Type 0 where
  pub entries : Map ℕ
  pub status : ℕ → Status A
  pub next : ℕ

-- `path.canonicalize()` of the file system, with its error as text.
module _ (canonicalize : FsPath → Result Text FsPath) where
  unfoldable pub canonicalize_path : FsPath → Result ConnError Text
  unfolding parent file_name path_text
  canonicalize_path path =
      let parent_dir : FsPath = elim (parent path) [
        | none ↦ path_of_text (codes ".")
        | some p ↦ p
      ] in
      elim (canonicalize path) [
        | ok p ↦ ok (path_text p)
        | err _ ↦ ok_or (file_name path) (io (codes "Invalid path")) >>= λ name.
            map_err io (canonicalize parent_dir) >>= λ canonical_parent.
            ok (path_text (record canonical_parent { parts = canonical_parent.parts ++ name ∷ [] }))
      ]

module _ {A : Type 0} where
  abbrev pub is_alive : Status A → Bool
  is_alive gone = false
  is_alive (alive a key closed) = true

  abbrev pub with_status : ℕ → Status A → Registry A → Registry A
  with_status h st r = record r { status = λ i. if i == h then st else r.status i }

  -- `registry.get(key)` and `weak.upgrade()`
  unfoldable pub upgrade : Text → Registry A → Option ℕ
  upgrade key r = elim (find key r.entries) [
    | none ↦ none
    | some h ↦ if is_alive (r.status h) then some h else none
  ]

  -- `registry.retain(|_, weak| weak.strong_count() > 0)`
  unfoldable pub retain_alive : (ℕ → Status A) → Map ℕ → Map ℕ
  retain_alive status [] = []
  retain_alive status ((k, h) ∷ m) =
      let rest = retain_alive status m in if is_alive (status h) then (k, h) ∷ rest else rest

  -- A database that is opened gets the next number.
  unfoldable pub opened : Option Text → A → Registry A → Registry A
  opened key a r = record (with_status r.next (alive a key false) r) { next = suc r.next }

  -- The part under the write lock: looks again, cleans up, and opens the database.
  unfoldable pub open_locked :
      Text → Result ConnError A → Registry A → Result ConnError ℕ × Registry A
  open_locked key factory r =
      let clean = record r { entries = retain_alive r.status r.entries } in
      elim (upgrade key r) [
        | some h ↦ (ok h, r)
        | none ↦ elim factory [
          | err e ↦ (err e, clean)
          | ok a ↦ (
            ok r.next,
            record (opened (some key) a clean) { entries = put key r.next clean.entries },
          )
        ]
      ]

  -- `get_or_open_database`, in two parts: `earlier` is the registry under the read lock, and `r` what
  -- it is at the end of the call, under the write lock if it is taken; other tasks may have come in
  -- between.
  unfoldable pub get_or_open_database :
      (FsPath → Result Text FsPath)
      → Text
      → Result ConnError A
      → (earlier r : Registry A) → Result ConnError ℕ × Registry A
  get_or_open_database canonicalize path factory earlier r =
      if is_memory_database path
      then elim factory [ err e ↦ (err e, r) | ok a ↦ (ok r.next, opened none a r) ]
      else elim (canonicalize_path canonicalize (path_of_text path)) [
        | err e ↦ (err e, r)
        | ok key ↦ elim (upgrade key earlier) [
          | some h ↦ (ok h, r)
          | none ↦ open_locked key factory r
        ]
      ]

  -- `uncache_database`, under the write lock.
  unfoldable pub uncache_database :
      (FsPath → Result Text FsPath) → Text → Registry A → Result ConnError (Unit {0}) × Registry A
  uncache_database canonicalize path r =
      if is_memory_database path
      then (ok tt, r)
      else elim (canonicalize_path canonicalize (path_of_text path)) [
        | err e ↦ (err e, r)
        | ok key ↦ (ok tt, record r { entries = erase key r.entries })
      ]

  -- The last holder of a handle lets it go.
  abbrev pub let_go : ℕ → Registry A → Registry A
  let_go h r = with_status h gone r

  -- `SqliteDatabase::close`, as far as the registry goes: the database is marked as closed and its
  -- path is taken out.
  abbrev pub mark_closed : Status A → Status A
  mark_closed gone = gone
  mark_closed (alive a key closed) = alive a key true

  unfoldable pub close_handle : (FsPath → Result Text FsPath) → ℕ → Text → Registry A → Registry A
  close_handle canonicalize h path r =
      (uncache_database canonicalize path (with_status h (mark_closed (r.status h)) r)).1
