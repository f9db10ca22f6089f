-- ===== src/Toolkit/Queries.antt =====
-- crates/sqlx-sqlite-toolkit/src/builders.rs, `FetchAllBuilder` and `FetchOneBuilder`: queries on a
-- reader, with or without attached databases. `V` is a value and `Raw` a row of sqlx.
pub mod Restored
mod Tests
use tauri_plugin_sqlite.Prelude.{
  ℕ, zero, suc, Bool, true, false, List, [], ◌∷◌, Option, none, some, Text, is_empty, length,
  if◌then◌else◌, Result, ok, err, ◌>>=◌, map_err,
}
use tauri_plugin_sqlite.ConnMgr.{ConnError}
use tauri_plugin_sqlite.ConnMgr.Database.{Sqlx}
use tauri_plugin_sqlite.ConnMgr.Attached.{
  Store, AttachedSpec, AttachedReadConnection, acquire_reader, acquire_reader_with_attached,
  release_reader, detach_reader,
}
use tauri_plugin_sqlite.Toolkit.{Error, connection_manager, multiple_rows_returned}
use tauri_plugin_sqlite.Toolkit.Row.{Row}

-- `decode_rows`: the loop over the rows, up to the first that cannot be decoded.
unfoldable pub decode_rows :
    {V Raw : Type 0} → (Raw → Result Error (Row V)) → List Raw → Result Error (List (Row V))
decode_rows decode [] = ok []
decode_rows decode (raw ∷ raws) =
    let rest = decode_rows decode raws in decode raw >>= λ row. rest >>= λ rows. ok (row ∷ rows)

-- The rows of `fetch_one`: none, one, or too many.
unfoldable pub at_most_one :
    {V Raw : Type 0} → (Raw → Result Error (Row V)) → List Raw → Result Error (Option (Row V))
at_most_one decode [] = ok none
at_most_one decode (raw ∷ []) = decode raw >>= λ row. ok (some row)
at_most_one decode (raw ∷ other ∷ raws) = err (multiple_rows_returned (length (raw ∷ other ∷ raws)))

-- The error of acquiring a connection of the pool is sqlx's, and that of a closed database the
-- connection manager's.
abbrev plain_error : ConnError → Error
plain_error (ConnError.sqlx e) = Error.sqlx e
plain_error e = connection_manager e

module _ {P C Raw : Type 0} (sqlx : Sqlx P C) (fetch : C → Result Text (List Raw) × C) where
  -- A query on a connection of the pool, which goes back to it.
  unfoldable pub fetch_plain : ℕ → Store P → Result Error (List Raw) × Store P
  fetch_plain db store =
      let got = acquire_reader sqlx db store in
      elim got.0 [
        | err e ↦ (err (plain_error e), got.1)
        | ok c ↦
            let rows = fetch c in (map_err Error.sqlx rows.0, release_reader sqlx db rows.1 got.1)
      ]

  -- A query with attached databases. `early` is what is made of the rows before the databases are
  -- detached; an error up to there drops the connection without detaching.
  unfoldable pub fetch_attached :
      {A : Type 0}
      → (List Raw → Result Error A)
      → ℕ
      → List AttachedSpec
      → Store P
      → Result Error A × Store P
  fetch_attached early db specs store =
      let got = acquire_reader_with_attached sqlx db specs store in
      elim got.0 [
        | err e ↦ (err (connection_manager e), got.1)
        | ok guard ↦
            let rows = fetch guard.conn in
            elim (map_err Error.sqlx rows.0 >>= early) [
              | err e ↦ (err e, release_reader sqlx db rows.1 got.1)
              | ok a ↦
                  let detached = detach_reader sqlx db (record guard { conn = rows.1 }) got.1 in
                  (map_err connection_manager detached.0 >>= λ _. ok a, detached.1)
            ]
      ]

  module _ {V : Type 0} (decode : Raw → Result Error (Row V)) where
    -- `FetchAllBuilder::execute`
    unfoldable pub fetch_all :
        ℕ → List AttachedSpec → Store P → Result Error (List (Row V)) × Store P
    fetch_all db attached store =
        let plain = fetch_plain db store in
        if is_empty attached
        then (plain.0 >>= decode_rows decode, plain.1)
        else fetch_attached (decode_rows decode) db attached store

    -- `FetchOneBuilder::execute`
    unfoldable pub fetch_one :
        ℕ → List AttachedSpec → Store P → Result Error (Option (Row V)) × Store P
    fetch_one db attached store =
        let rows =
          if is_empty attached then fetch_plain db store else fetch_attached ok db attached store in
        (rows.0 >>= at_most_one decode, rows.1)
