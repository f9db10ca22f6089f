-- ===== src/ConnMgr/Attached/SmallSqlite.antt =====
-- Databases on a small SQLite, for the tests: a connection is the list of the schemas that it has
-- attached, and a pool the list of its free connections.
use tauri_plugin_sqlite.Prelude.{
  Bool-cases, List, Option, Result, Text, [], any, ap, codes, double, err, false, if◌then◌else◌,
  inl, inr, insert_by, is_ascii_alphabetic, is_ascii_alphanumeric, is_ascii_digit, length, none, ok,
  read_quoted, refl, some, sort_by, suc, sym, text_eq, true, ℕ, ◌++◌, ◌==◌, ◌∙◌, ◌∷◌, ◌≡◌,
}
use tauri_plugin_sqlite.ConnMgr.Database.{SqliteDatabase, Sqlx}
use tauri_plugin_sqlite.ConnMgr.Database.Writer.{Counted}
use tauri_plugin_sqlite.ConnMgr.Attached.{
  AttachedReadConnection, AttachedSpec, Store, acquire_reader, acquire_reader_with_attached,
  attach_readers, attach_sql, detach_sql, escape_path, first_duplicate, is_valid_schema_name,
  read_only, read_write,
}
use tauri_plugin_sqlite.ConnMgr.Attached.Sql.{
  read_attach, read_attach-attach_sql, read_detach, read_schema,
}
use tauri_plugin_sqlite.ConnMgr.Attached.Schemas.{Attaches, remove_name}
use tauri_plugin_sqlite.ConnMgr.{ConnError}

-- What SQLite does with a statement.
abbrev pub attach_name : Text → List Text → Result Text (Unit {0}) × List Text
attach_name name c =
    if any (text_eq name) c then (err (codes "in use"), c) else (ok tt, c ++ name ∷ [])

abbrev pub detach_name : Text → List Text → Result Text (Unit {0}) × List Text
detach_name name c =
    if any (text_eq name) c
    then (ok tt, remove_name name c)
    else (err (codes "no such database"), c)

abbrev pub run_sql :
    Option (Text × Text) → Option Text → List Text → Result Text (Unit {0}) × List Text
run_sql (some (path, name)) detached c = attach_name name c
run_sql none (some name) c = detach_name name c
run_sql none none c = (ok tt, c)

abbrev pub take_free : List (List Text) → Result Text (List Text) × List (List Text)
take_free [] = (err (codes "timed out"), [])
take_free (c ∷ cs) = (ok c, cs)

abbrev pub test_sqlx : Sqlx (List (List Text)) (List Text)
test_sqlx = record {
  acquire = take_free;
  release = λ c p. c ∷ p;
  close_pool = λ p. [];
  execute = λ sql c. run_sql (read_attach sql) (read_detach sql) c;
}

pub take_free-ok :
    (p : List (List Text)) (c : List Text)
    → (take_free p).0 ≡ ok c
    → length p ≡ suc (length (take_free p).1)
take_free-ok [] c h = absurd cc
take_free-ok (x ∷ p) c h = refl

pub take_free-err :
    (p : List (List Text)) (e : Text) → (take_free p).0 ≡ err e → length p ≡ length (take_free p).1
take_free-err [] e h = refl
take_free-err (x ∷ p) e h = absurd cc

abbrev pub test_pools : Counted test_sqlx
test_pools = record {
  available = length;
  acquire_takes = take_free-ok;
  acquire_fails = take_free-err;
  release_frees = λ c p. refl;
}

pub attach_name-ok :
    (name : Text) (c : List Text)
    → (attach_name name c).0 ≡ ok tt
    → ((attach_name name c).1 ≡ c ++ name ∷ []) × (any (text_eq name) c ≡ false)
attach_name-ok name c h = elim (Bool-cases (any (text_eq name) c)) [
  | inl e ↦ absurd (let r : err (codes "in use") ≡ ok tt = rw e at h in cc)
  | inr e ↦ (rw e refl, e)
]

pub detach_name-ok :
    (name : Text) (c : List Text)
    → (detach_name name c).0 ≡ ok tt
    → (detach_name name c).1 ≡ remove_name name c
detach_name-ok name c h = elim (Bool-cases (any (text_eq name) c)) [
  | inl e ↦ rw e refl
  | inr e ↦ absurd (let r : err (codes "no such database") ≡ ok tt = rw e at h in cc)
]

pub run_sql-err :
    (a : Option (Text × Text)) (d : Option Text) (m : Text) (c : List Text)
    → (run_sql a d c).0 ≡ err m
    → (run_sql a d c).1 ≡ c
run_sql-err none none m c h = refl
run_sql-err none (some name) m c h = elim (Bool-cases (any (text_eq name) c)) [
  | inl e ↦ absurd (let r : ok tt ≡ err m = rw e at h in cc)
  | inr e ↦ rw e refl
]
run_sql-err (some (path, name)) d m c h = elim (Bool-cases (any (text_eq name) c)) [
  | inl e ↦ rw e refl
  | inr e ↦ absurd (let r : ok tt ≡ err m = rw e at h in cc)
]

pub attach_runs :
    (path name : Text) (c : List Text)
    → is_valid_schema_name name ≡ true
    → test_sqlx.execute (attach_sql path name) c ≡ attach_name name c
attach_runs path name c v =
    ap (λ r. run_sql r (read_detach (attach_sql path name)) c)
      (read_attach-attach_sql path name v).0

pub detach_runs :
    (name : Text) (c : List Text)
    → is_valid_schema_name name ≡ true
    → test_sqlx.execute (detach_sql name) c ≡ detach_name name c
unfolding read_attach detach_sql
detach_runs name c v = ap (λ r. run_sql none r c) (read_attach-attach_sql [] name v).1

abbrev pub test_attaches : Attaches test_sqlx
test_attaches = record {
  attached = λ c. c;
  attach_adds = λ path name c v h.
      ap (λ o. o.1) (attach_runs path name c v)
      ∙ (attach_name-ok name c (ap (λ o. o.0) (sym (attach_runs path name c v)) ∙ h)).0;
  attach_new = λ path name c v h.
      (attach_name-ok name c (ap (λ o. o.0) (sym (attach_runs path name c v)) ∙ h)).1;
  attach_fails = λ path name m c h.
      run_sql-err (read_attach (attach_sql path name)) (read_detach (attach_sql path name)) m c h;
  detach_removes = λ name c v h.
      ap (λ o. o.1) (detach_runs name c v)
      ∙ detach_name-ok name c (ap (λ o. o.0) (sym (detach_runs name c v)) ∙ h);
}

abbrev pub connection : List Text
connection = codes "main" ∷ []

abbrev pub database : Text → SqliteDatabase (List (List Text))
database path = record {
  read_pool = connection ∷ [];
  write_conn = connection ∷ [];
  wal_initialized = false;
  closed = false;
  path = path;
}

-- Two databases: at 0, and at every other place.
abbrev pub test_store : Store (List (List Text))
test_store d = if d == 0 then database (codes "/b'.db") else database (codes "/a.db")

abbrev pub reads : AttachedSpec
reads = record { database = 1; schema_name = codes "other"; mode = read_only }

abbrev pub writes : ℕ → AttachedSpec
writes d = record { database = d; schema_name = codes "other"; mode = read_write }

abbrev pub test_out :
    Result ConnError (AttachedReadConnection (List Text)) × Store (List (List Text))
test_out = acquire_reader_with_attached test_sqlx 0 (reads ∷ []) test_store

abbrev pub test_guard : AttachedReadConnection (List Text)
test_guard = record { conn = codes "main" ∷ codes "other" ∷ []; schema_names = codes "other" ∷ [] }

pub reader_runs : test_out.0 ≡ ok test_guard
unfolding acquire_reader_with_attached acquire_reader attach_readers attach_sql escape_path sort_by
    insert_by first_duplicate read_attach read_schema read_quoted double is_valid_schema_name
    is_ascii_alphanumeric is_ascii_alphabetic is_ascii_digit text_eq
reader_runs = refl

pub reader_acquires : (acquire_reader test_sqlx 0 test_store).0 ≡ ok connection
unfolding acquire_reader
reader_acquires = refl
