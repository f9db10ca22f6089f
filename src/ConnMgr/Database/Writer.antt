-- ===== src/ConnMgr/Database/Writer.antt =====
-- What `acquire_writer` does with the database and with the connections of its pool.
use tauri_plugin_sqlite.Prelude.{
  ℕ, suc, Text, Result, ok, err, ◌≡◌, refl, ◌∙◌, sym, Bool-cases, Result-cases, arith, inl, inr,
}
use tauri_plugin_sqlite.ConnMgr.{ConnError}
use tauri_plugin_sqlite.ConnMgr.Database.{Sqlx, SqliteDatabase, acquire_writer, initialize_wal}

-- A pool has a number of connections that are free. sqlx's documentation: acquiring takes one, or
-- fails and takes none, and a connection that is dropped is free again.
pub record Counted {P C : Type 0} (sqlx : Sqlx P C) : Type 0 where
  pub available : P → ℕ
  pub acquire_takes :
      (p : P) (c : C) → (sqlx.acquire p).0 ≡ ok c → available p ≡ suc (available (sqlx.acquire p).1)
  pub acquire_fails :
      (p : P) (e : Text) → (sqlx.acquire p).0 ≡ err e → available p ≡ available (sqlx.acquire p).1
  pub release_frees : (c : C) (p : P) → available (sqlx.release c p) ≡ suc (available p)

-- A call that succeeds holds one connection, and a call that fails none.
unfoldable pub Balanced : {C : Type 0} → Result ConnError C → ℕ → ℕ → Type 0
Balanced (ok c) before after = before ≡ suc after
Balanced (err e) before after = before ≡ after

module _ {P C : Type 0} (sqlx : Sqlx P C) where
  -- The path of a database does not change.
  pub acquire_writer-path :
      (db : SqliteDatabase P) → SqliteDatabase.path (acquire_writer sqlx db).1 ≡ db.path
  unfolding acquire_writer
  acquire_writer-path db = ground arith

  module _ (pools : Counted sqlx) where
    -- On every branch of `acquire_writer`, errors of the statements that enable WAL included, the
    -- pool of the writer has one connection less than before if the call gives a writer, and as
    -- many as before if it fails.
    pub acquire_writer-Balanced :
        (db : SqliteDatabase P)
        → Balanced
            (acquire_writer sqlx db).0
            (pools.available db.write_conn)
            (pools.available (SqliteDatabase.write_conn (acquire_writer sqlx db).1))
    unfolding acquire_writer Balanced
    acquire_writer-Balanced db = elim (Bool-cases db.closed) [
      | inl e ↦ rw (acquire_writer, e) refl
      | inr e ↦ elim (Result-cases (sqlx.acquire db.write_conn).0) [
        | inr (m, a) ↦ rw e (rw a (pools.acquire_fails db.write_conn m a))
        | inl (c, a) ↦
            let takes = pools.acquire_takes db.write_conn c a in
            elim (Bool-cases db.wal_initialized) [
              | inl w ↦ rw e (rw a (rw w takes))
              | inr w ↦ elim (Result-cases (initialize_wal sqlx c).0) [
                | inl (u, i) ↦ rw e (rw a (rw w (rw i takes)))
                | inr (m, i) ↦ rw e (
                    rw a (
                      rw w (
                        rw i (
                          takes
                          ∙ sym (
                              pools.release_frees (initialize_wal sqlx c).1
                                (sqlx.acquire db.write_conn).1)))))
              ]
            ]
      ]
    ]
