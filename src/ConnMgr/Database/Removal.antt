-- ===== src/ConnMgr/Database/Removal.antt =====
-- `SqliteDatabase::remove` and the files that it deletes. `F` is a state of the file system.
mod Tests
use tauri_plugin_sqlite.Prelude.{
  ℕ, Bool, true, false, List, [], ◌∷◌, ◌++◌, Option, none, some, Text, codes, if◌then◌else◌, Result,
  ok, err, ◌==◌, ◌≡◌, ◌≢◌, ◌↔◌, refl, ◌∙◌, ap, sym, FsPath, Lacks, arith, append_assoc,
  cons-injective,
}
use mathlib.Core.List.{append_cancel_left, append_cancel_right}
use tauri_plugin_sqlite.ConnMgr.{ConnError, io}
use tauri_plugin_sqlite.ConnMgr.Database.{Sqlx, SqliteDatabase, close}

-- What deleting a file answers, an error with its text.
pub data Deleted : Type 0 where
  deleted : Deleted
  not_found : Text → Deleted
  refused : Text → Deleted

abbrev pub full_stop : ℕ
full_stop = b'.'

-- The text before the last full stop.
unfoldable pub before_stop : Text → Option Text
before_stop [] = none
before_stop (c ∷ t) = elim (before_stop t) [
  | some b ↦ some (c ∷ b)
  | none ↦ if c == full_stop then some [] else none
]

-- The stem of a file name: one that begins with its only full stop has no extension.
unfoldable pub file_stem : Text → Text
file_stem name = elim (before_stop name) [ none ↦ name | some [] ↦ name | some (c ∷ b) ↦ c ∷ b ]

-- `path.with_extension(extension)`
unfoldable pub with_extension : Text → List Text → List Text
with_extension extension [] = []
with_extension extension (name ∷ []) = (file_stem name ++ full_stop ∷ extension) ∷ []
with_extension extension (dir ∷ name ∷ parts) = dir ∷ with_extension extension (name ∷ parts)

-- The files that are deleted beside the database.
unfoldable pub wal_path : FsPath → FsPath
wal_path path = record path { parts = with_extension (codes "db-wal") path.parts }

unfoldable pub shm_path : FsPath → FsPath
shm_path path = record path { parts = with_extension (codes "db-shm") path.parts }

module _ {F : Type 0} (delete : FsPath → F → Deleted × F) where
  -- An error other than a missing file ends the call.
  abbrev then_delete :
      Deleted × F → (F → Result ConnError (Unit {0}) × F) → Result ConnError (Unit {0}) × F
  then_delete (deleted, f) next = next f
  then_delete (not_found e, f) next = next f
  then_delete (refused e, f) next = (err (io e), f)

  -- The deletions of `remove`: the database file must be there, the others need not.
  unfoldable pub remove_files : FsPath → F → Result ConnError (Unit {0}) × F
  remove_files path f =
      let first = delete path f in
      elim first.0 [
        | not_found e ↦ (err (io e), first.1)
        | refused e ↦ (err (io e), first.1)
        | deleted ↦
            then_delete (delete (wal_path path) first.1)
              (λ g. then_delete (delete (shm_path path) g) (λ h. (ok tt, h)))
      ]

  -- `SqliteDatabase::remove`: the database is closed, then its files are deleted.
  unfoldable pub remove_database :
      {P C : Type 0}
      → Sqlx P C
      → FsPath
      → SqliteDatabase P
      → F
      → Result ConnError (Unit {0}) × SqliteDatabase P × F
  remove_database sqlx path db f = let done = remove_files path f in (done.0, close sqlx db, done.1)

-- The name that SQLite's documentation gives to the write-ahead log: that of the database and "-wal".
abbrev pub sqlite_wal : Text → Text
sqlite_wal name = name ++ codes "-wal"

abbrev pub file_of : Text → Text → Text
file_of stem extension = stem ++ full_stop ∷ extension

no_stop : (t : Text) → Lacks full_stop t → before_stop t ≡ none
unfolding before_stop
no_stop [] h = refl
no_stop (c ∷ t) h = rw (no_stop t h.1) (ground arith)

before_stop-file_of : (b e : Text) → Lacks full_stop e → before_stop (file_of b e) ≡ some b
unfolding before_stop
before_stop-file_of [] e h = rw (no_stop e h) refl
before_stop-file_of (c ∷ b) e h = rw (before_stop-file_of b e h) refl

file_stem-file_of : (b e : Text) → b ≢ [] → Lacks full_stop e → file_stem (file_of b e) ≡ b
unfolding file_stem before_stop
file_stem-file_of [] e n h = absurd (n refl)
file_stem-file_of (c ∷ b) e n h = rw (before_stop-file_of (c ∷ b) e h) refl

with_extension-append :
    (extension name : Text) (dirs : List Text)
    → with_extension extension (dirs ++ name ∷ [])
      ≡ dirs ++ (file_stem name ++ full_stop ∷ extension) ∷ []
unfolding with_extension
with_extension-append extension name [] = refl
with_extension-append extension name (d ∷ []) = refl
with_extension-append extension name (d ∷ e ∷ dirs) =
    ap (◌∷◌ d) (with_extension-append extension name (e ∷ dirs))

abbrev pub file_at : List Text → Text → FsPath
file_at dirs name = record { absolute = true; parts = dirs ++ name ∷ [] }

file_at-injective : (dirs : List Text) (a b : Text) → file_at dirs a ≡ file_at dirs b → a ≡ b
file_at-injective dirs a b h =
    (cons-injective a b [] [] (append_cancel_left dirs (a ∷ []) (b ∷ []) (ap (λ p. p.parts) h))).0

-- For a database file with a stem and an extension, in any directory, the file that `remove` deletes
-- as its write-ahead log is that of the database with the same stem and the extension db, and so its
-- own exactly if its extension is db.
pub wal_path-sqlite_wal :
    (dirs : List Text) (stem extension : Text)
    → stem ≢ []
    → Lacks full_stop extension
    → (wal_path (file_at dirs (file_of stem extension))
        ≡ file_at dirs (sqlite_wal (file_of stem (codes "db"))))
      × ((wal_path (file_at dirs (file_of stem extension))
            ≡ file_at dirs (sqlite_wal (file_of stem extension)))
          ↔ (extension ≡ codes "db"))
unfolding wal_path
wal_path-sqlite_wal dirs stem extension n h =
    let beside = sqlite_wal (file_of stem (codes "db")) in
    let named : file_stem (file_of stem extension) ++ full_stop ∷ codes "db-wal" ≡ beside =
      ap (λ s. s ++ full_stop ∷ codes "db-wal") (file_stem-file_of stem extension n h)
      ∙ sym (append_assoc stem (full_stop ∷ codes "db") (codes "-wal")) in
    let is : wal_path (file_at dirs (file_of stem extension)) ≡ file_at dirs beside =
      ap (λ ps. record { absolute = true; parts = ps })
        (with_extension-append (codes "db-wal") (file_of stem extension) dirs
          ∙ ap (λ t. dirs ++ t ∷ []) named) in
    (
      is,
      (
        λ k.
            let same =
              file_at-injective dirs beside (sqlite_wal (file_of stem extension)) (sym is ∙ k) in
            let files =
              append_cancel_right (file_of stem (codes "db")) (file_of stem extension)
                (codes "-wal") same in
            let ends =
              append_cancel_left stem (full_stop ∷ codes "db") (full_stop ∷ extension) files in
            sym (cons-injective full_stop full_stop (codes "db") extension ends).1,
        λ k. is ∙ ap (λ e. file_at dirs (sqlite_wal (file_of stem e))) (sym k),
      ),
    )
