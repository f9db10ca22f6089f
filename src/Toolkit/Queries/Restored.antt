-- ===== src/Toolkit/Queries/Restored.antt =====
-- Where the connection of a query with attached databases goes.
use tauri_plugin_sqlite.Prelude.{
  ℕ, List, ◌++◌, Text, Result, ok, err, ◌>>=◌, map_err, ◌≡◌, ◌⊎◌, refl, ◌∙◌, ap, sym, subst, inl,
  inr, All, Result-cases,
}
use tauri_plugin_sqlite.ConnMgr.{ConnError}
use tauri_plugin_sqlite.ConnMgr.Database.{Sqlx}
use tauri_plugin_sqlite.ConnMgr.Attached.{
  Store, AttachedSpec, AttachedReadConnection, acquire_reader, acquire_reader_with_attached,
  release_reader, detach_reader, detach_loop,
}
use tauri_plugin_sqlite.ConnMgr.Attached.Schemas.{
  Attaches, names_of, NotIn, IsSchema, schemas-valid, detach_loop-attached,
}
use tauri_plugin_sqlite.ConnMgr.Attached.Reader.{acquire_reader_with_attached-Succeeds, sorted}
use tauri_plugin_sqlite.Toolkit.{Error, connection_manager}
use tauri_plugin_sqlite.Toolkit.Queries.{fetch_attached}

-- `keeps`: the query itself attaches and detaches nothing.
module _ {P C Raw A : Type 0} (sqlx : Sqlx P C) (sqlite : Attaches sqlx)
    (fetch : C → Result Text (List Raw) × C)
    (keeps : (c : C) → sqlite.attached (fetch c).1 ≡ sqlite.attached c)
    (early : List Raw → Result Error A) where
  -- A query with attached databases ends in one of two ways, once the guard is there. With a result,
  -- the databases are detached and the connection goes back to the pool with the schemas that it had
  -- when it was acquired. With an error, of the query, of decoding or of detaching, the connection
  -- goes back too; if the query or decoding failed, it goes back with all schemas of the specs still
  -- attached.
  pub fetch_attached-restores :
      (db : ℕ) (specs : List AttachedSpec) (store : Store P) (c : C)
      (guard : AttachedReadConnection C)
      → (acquire_reader sqlx db store).0 ≡ ok c
      → (acquire_reader_with_attached sqlx db specs store).0 ≡ ok guard
      → let out = fetch_attached sqlx fetch early db specs store in
        let left = (acquire_reader_with_attached sqlx db specs store).1 in
        (back : C) × (out.1 ≡ release_reader sqlx db back left)
        × (((a : A) × (out.0 ≡ ok a) × (sqlite.attached back ≡ sqlite.attached c))
            ⊎ ((e : ConnError) × (out.0 ≡ err (connection_manager e)))
            ⊎ ((e : Error) × (out.0 ≡ err e)
                × (sqlite.attached back
                    ≡ sqlite.attached c ++ names_of (sorted sqlx sqlite db specs store))))
  unfolding fetch_attached detach_reader
  fetch_attached-restores db specs store c guard g h =
      let (names, now, fresh, valid, unique) =
        acquire_reader_with_attached-Succeeds sqlx sqlite db specs store c guard g h in
      let rows = fetch guard.conn in
      let left = (acquire_reader_with_attached sqlx db specs store).1 in
      let kept = keeps guard.conn ∙ now in
      let out = fetch_attached sqlx fetch early db specs store in
      elim (Result-cases (map_err Error.sqlx rows.0 >>= early)) [
        | inr (e, f) ↦
            let is : out ≡ (err e, release_reader sqlx db rows.1 left) =
              rw (fetch_attached, h) (rw f refl) in
            (rows.1, ap (λ o. o.1) is, inr (inr (e, ap (λ o. o.0) is, kept)))
        | inl (a, f) ↦
            let done = detach_loop sqlx guard.schema_names rows.1 in
            let is : out ≡ (
              map_err connection_manager done.0 >>= λ _. ok a,
              release_reader sqlx db done.1 left,
            ) =
              rw (fetch_attached, h) (rw f refl) in
            (
              done.1,
              ap (λ o. o.1) is,
              elim (Result-cases done.0) [
                | inr (m, d) ↦ inr (
                    inl (
                      m,
                      ap (λ o. o.0) is ∙ ap (λ r. map_err connection_manager r >>= λ _. ok a) d,
                    ))
                | inl (u, d) ↦ inl (
                  a,
                  ap (λ o. o.0) is ∙ ap (λ r. map_err connection_manager r >>= λ _. ok a) d,
                  detach_loop-attached sqlx sqlite guard.schema_names (sqlite.attached c) rows.1
                      (kept ∙ ap (λ l. sqlite.attached c ++ l) (sym names))
                      (subst (All (NotIn (sqlite.attached c))) (sym names) fresh)
                      (subst (All IsSchema) (sym names)
                        (schemas-valid (sorted sqlx sqlite db specs store) valid))
                      d,
                )
              ],
            )
      ]
