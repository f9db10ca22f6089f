-- ===== src/Toolkit/Writes.antt =====
-- crates/sqlx-sqlite-toolkit/src/builders.rs, `ExecuteBuilder` with attached databases: a statement
-- on the writers of ConnMgr.Attached. `R` is what a statement gives.
pub mod Released
mod Tests
use tauri_plugin_sqlite.Prelude.{
  ℕ, List, [], ◌∷◌, Option, none, some, Text, Result, ok, err, ◌>>=◌, map_err,
}
use tauri_plugin_sqlite.ConnMgr.Database.{Sqlx}
use tauri_plugin_sqlite.ConnMgr.Attached.{
  Store, AttachedSpec, WriteGuard, AttachedWriteGuard, acquire_writer_with_attached, detach_writer,
  release_writers,
}
use tauri_plugin_sqlite.Toolkit.{Error, connection_manager}

module _ {P C R : Type 0} (sqlx : Sqlx P C) (run : C → Result Text R × C) where
  -- What is done with the guard. On an error of the statement the guard is dropped, which gives its
  -- writers back without detaching.
  unfoldable pub execute_guarded : AttachedWriteGuard C → Store P → Result Error R × Store P
  execute_guarded guard store =
      let done = run guard.writer.conn in
      let writer : WriteGuard C = record { home = guard.writer.home; conn = done.1 } in
      elim done.0 [
        | err e ↦ (err (Error.sqlx e), release_writers sqlx (writer ∷ guard.held_writers) store)
        | ok result ↦
            let detached = detach_writer sqlx (record guard { writer = writer }) store in
            (map_err connection_manager detached.0 >>= λ _. ok result, detached.1)
      ]

  -- `none` is the panic of `acquire_writer_with_attached`.
  unfoldable pub execute_attached :
      ℕ → List AttachedSpec → Store P → Option (Result Error R × Store P)
  unfolding execute_guarded
  execute_attached db specs store = elim (acquire_writer_with_attached sqlx db specs store) [
    | none ↦ none
    | some got ↦ elim got.0 [
      | err e ↦ some (err (connection_manager e), got.1)
      | ok guard ↦ some (execute_guarded guard got.1)
    ]
  ]
