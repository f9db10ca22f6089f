-- ===== src/Toolkit/Writes/Released.antt =====
-- A write with attached databases gives every writer back.
use tauri_plugin_sqlite.Prelude.{
  ℕ, ◌+◌, List, ◌∷◌, some, Text, Result, err, ◌≡◌, refl, ◌∙◌, subst, inl, inr, Result-cases,
}
use tauri_plugin_sqlite.ConnMgr.{ConnError}
use tauri_plugin_sqlite.ConnMgr.Database.{Sqlx}
use tauri_plugin_sqlite.ConnMgr.Database.Writer.{Counted}
use tauri_plugin_sqlite.ConnMgr.Attached.{
  Store, AttachedSpec, AttachedWriteGuard, detach_writer, detach_loop, release_writers,
}
use tauri_plugin_sqlite.ConnMgr.Attached.Locks.{
  count_home, Accounted, guards_of, free, free-release_writers,
}
use tauri_plugin_sqlite.ConnMgr.Attached.Outcome.{
  acquire_writer_with_attached-HoldsEntries, acquire_writer_with_attached-Accounted,
}
use tauri_plugin_sqlite.Toolkit.{Error, connection_manager}
use tauri_plugin_sqlite.Toolkit.Writes.{execute_guarded, execute_attached}

module _ {P C R : Type 0} (sqlx : Sqlx P C) (pools : Counted sqlx)
    (run : C → Result Text R × C) where
  -- The writers of the guard go back, whatever their connections have become.
  released :
      (guard : AttachedWriteGuard C) (conn : C) (store : Store P) (e : ℕ)
      → free sqlx pools
          (release_writers sqlx
            (record { home = guard.writer.home; conn = conn } ∷ guard.held_writers)
            store)
          e
        ≡ count_home e (guard.writer ∷ guard.held_writers) + free sqlx pools store e
  unfolding count_home
  released guard conn store e =
      free-release_writers sqlx pools
        (record { home = guard.writer.home; conn = conn } ∷ guard.held_writers) store e

  execute_guarded-free :
      (guard : AttachedWriteGuard C) (store : Store P) (e : ℕ)
      → free sqlx pools (execute_guarded sqlx run guard store).1 e
        ≡ count_home e (guard.writer ∷ guard.held_writers) + free sqlx pools store e
  unfolding execute_guarded detach_writer
  execute_guarded-free guard store e =
      let done = run guard.writer.conn in
      elim (Result-cases done.0) [
        | inr (m, f) ↦ rw (f, execute_guarded) (released guard done.1 store e)
        | inl (r, f) ↦
            rw (f, execute_guarded)
              (released guard (detach_loop sqlx guard.schema_names done.1).1 store e)
      ]

  -- A statement with attached databases does not panic, and whether it succeeds, or acquiring,
  -- attaching, the statement itself or detaching fails: in the pool of each database as many writers
  -- are free afterwards as were before.
  pub execute_attached-releases :
      (db : ℕ) (specs : List AttachedSpec) (store : Store P)
      → (out : Result Error R × Store P) × (execute_attached sqlx run db specs store ≡ some out)
        × ((e : ℕ) → free sqlx pools out.1 e ≡ free sqlx pools store e)
  unfolding execute_attached Accounted
  execute_attached-releases db specs store =
      let (got, h, _) = acquire_writer_with_attached-HoldsEntries sqlx db specs store in
      let accounted : (e : ℕ)
          → Accounted e (guards_of got.0) (free sqlx pools got.1 e) (free sqlx pools store e) =
        λ e. acquire_writer_with_attached-Accounted sqlx db specs store pools got e h in
      let accounts : Result ConnError (AttachedWriteGuard C) → ℕ → Type 0 =
        λ r e. Accounted e (guards_of r) (free sqlx pools got.1 e) (free sqlx pools store e) in
      elim (Result-cases got.0) [
        | inr (m, f) ↦ (
          (err (connection_manager m), got.1),
          rw (execute_attached, h) (rw f refl),
          (λ e. subst (λ r. accounts r e) f (accounted e)),
        )
        | inl (guard, f) ↦ (
          execute_guarded sqlx run guard got.1,
          rw (execute_attached, h) (rw f refl),
          (λ e. execute_guarded-free guard got.1 e ∙ subst (λ r. accounts r e) f (accounted e)),
        )
      ]
