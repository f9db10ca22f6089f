-- ===== src/ConnMgr/Attached/Reader.antt =====
-- What `acquire_reader_with_attached` leaves on the connection, and where the connection goes.
use tauri_plugin_sqlite.Prelude.{
  ℕ, true, false, List, [], ◌∷◌, ◌++◌, map, Text, All, Result, ok, err, ◌≡◌, refl, ◌∙◌, ap, sym,
  subst, ◌⊎◌, inl, inr, Result-cases, Option-cases, sort_by, sort_by-Perm, Perm, ok-injective,
  err-injective, append-nil, Unique,
}
use tauri_plugin_sqlite.ConnMgr.{ConnError, duplicate_attached_database}
use tauri_plugin_sqlite.ConnMgr.Database.{Sqlx}
use tauri_plugin_sqlite.ConnMgr.Attached.{
  Store, AttachedSpec, AttachedReadConnection, path_of, is_read_write, is_valid_schema_name,
  attach_readers, detach_loop, acquire_reader, acquire_reader_with_attached, release_reader,
  first_duplicate, detach_reader,
}
use tauri_plugin_sqlite.ConnMgr.Attached.LockOrder.{
  first_duplicate-Unique, IsRepeated, first_duplicate-IsRepeated,
}
use tauri_plugin_sqlite.ConnMgr.Attached.Schemas.{
  Attaches, Stops, names_of, NotIn, attach_readers-Attached, detach_loop-attached, IsSchema,
  schemas-valid,
}

module _ {P C : Type 0} (sqlx : Sqlx P C) (sqlite : Attaches sqlx) (main_db : ℕ)
    (specs : List AttachedSpec) (store : Store P) where
  abbrev pub sorted : List AttachedSpec
  sorted = sort_by (λ spec. path_of store spec.database) specs

  abbrev pub got : Result ConnError C × Store P
  got = acquire_reader sqlx main_db store

  abbrev pub out : Result ConnError (AttachedReadConnection C) × Store P
  out = acquire_reader_with_attached sqlx main_db specs store

  -- The ways through the function once it has a connection.
  acquire_reader_with_attached-cases :
      (c : C)
      → got.0 ≡ ok c
      → ((path : Text) × IsRepeated path (map (λ spec. path_of store spec.database) sorted)
          × (out ≡ (err (duplicate_attached_database path), release_reader sqlx main_db c got.1)))
        ⊎ (Unique (map (λ spec. path_of store spec.database) sorted)
            × (((e : ConnError) × ((attach_readers sqlx got.1 sorted c).0 ≡ err e)
                  × (out ≡ (
                    err e,
                    release_reader sqlx main_db (attach_readers sqlx got.1 sorted c).1 got.1,
                  )))
                ⊎ ((names : List Text) × ((attach_readers sqlx got.1 sorted c).0 ≡ ok names)
                    × (out ≡ (
                      ok (record {
                        conn = (attach_readers sqlx got.1 sorted c).1;
                        schema_names = names;
                      }),
                      got.1,
                    )))))
  unfolding acquire_reader_with_attached
  acquire_reader_with_attached-cases c g =
      let done = attach_readers sqlx got.1 sorted c in
      elim (Option-cases (first_duplicate [] (map (λ spec. path_of store spec.database) sorted))) [
        | inr (path, d) ↦ inl (
          path,
          first_duplicate-IsRepeated (map (λ spec. path_of store spec.database) sorted) path d,
          rw (acquire_reader_with_attached, g) (rw d refl),
        )
        | inl d ↦ inr (
          first_duplicate-Unique [] (map (λ spec. path_of store spec.database) sorted) d,
          elim (Result-cases done.0) [
            | inr (e, a) ↦ inl (e, a, rw (acquire_reader_with_attached, g) (rw d (rw a refl)))
            | inl (names, a) ↦
                inr (names, a, rw (acquire_reader_with_attached, g) (rw d (rw a refl)))
          ],
        )
      ]

  -- What the call has done when it returns a guard.
  abbrev pub Succeeds : C → AttachedReadConnection C → Type 0
  Succeeds c guard =
      (guard.schema_names ≡ names_of sorted)
      × (sqlite.attached guard.conn ≡ sqlite.attached c ++ names_of sorted)
      × All (NotIn (sqlite.attached c)) (names_of sorted)
      × All (λ s. (is_valid_schema_name s.schema_name ≡ true) × (is_read_write s ≡ false)) sorted
      × Unique (map (λ spec. path_of store spec.database) sorted)

  pub acquire_reader_with_attached-Succeeds :
      (c : C) (guard : AttachedReadConnection C)
      → got.0 ≡ ok c
      → out.0 ≡ ok guard
      → Succeeds c guard
  acquire_reader_with_attached-Succeeds c guard g h =
      let done = attach_readers sqlx got.1 sorted c in
      elim (acquire_reader_with_attached-cases c g) [
        | inl (path, twice, is) ↦ let r = sym (ap (λ o. o.0) is) ∙ h in absurd cc
        | inr (unique, inl (e, a, is)) ↦ let r = sym (ap (λ o. o.0) is) ∙ h in absurd cc
        | inr (unique, inr (names, a, is)) ↦
            let same =
              ok-injective (record { conn = done.1; schema_names = names }) guard
                (sym (ap (λ o. o.0) is) ∙ h) in
            elim (attach_readers-Attached sqlx sqlite got.1 sorted c) [
              | inr (e, before, spec, after, f, parts, stops, now) ↦ let r = sym f ∙ a in absurd cc
              | inl (n, now, fresh, valid) ↦ (
                ap (λ x. x.schema_names) (sym same)
                    ∙ ok-injective names (names_of sorted) (sym a ∙ n),
                ap (λ x. sqlite.attached x.conn) (sym same) ∙ now,
                fresh,
                valid,
                unique,
              )
            ]
      ]

  -- If the call returns a guard, the specs, in the order of their paths, all name a valid schema and
  -- ask to read only, no path is there twice, and the connection has, behind the schemas it had
  -- before, exactly those of the specs.
  acquire_reader_with_attached-attaches :
      (c : C) (guard : AttachedReadConnection C)
      → got.0 ≡ ok c
      → out.0 ≡ ok guard
      → Perm sorted specs
        × (sqlite.attached guard.conn ≡ sqlite.attached c ++ names_of sorted)
        × All (λ s. (is_valid_schema_name s.schema_name ≡ true) × (is_read_write s ≡ false)) sorted
        × Unique (map (λ spec. path_of store spec.database) sorted)
  acquire_reader_with_attached-attaches c guard g h =
      let (names, now, fresh, valid, unique) = acquire_reader_with_attached-Succeeds c guard g h in
      (sort_by-Perm (λ spec. path_of store spec.database) specs, now, valid, unique)

  -- `detach_all` undoes the call: if it succeeds, the connection goes back to the pool of the main
  -- database with the schemas that it had when it was acquired.
  pub detach_reader-acquire_reader_with_attached :
      (c : C) (guard : AttachedReadConnection C)
      → got.0 ≡ ok c
      → out.0 ≡ ok guard
      → (detach_reader sqlx main_db guard out.1).0 ≡ ok tt
      → (back : C) × ((detach_reader sqlx main_db guard out.1).1
          ≡ release_reader sqlx main_db back out.1)
        × (sqlite.attached back ≡ sqlite.attached c)
  unfolding detach_reader
  detach_reader-acquire_reader_with_attached c guard g h d =
      let (names, now, fresh, valid, unique) = acquire_reader_with_attached-Succeeds c guard g h in
      (
        (detach_loop sqlx guard.schema_names guard.conn).1,
        refl,
        detach_loop-attached sqlx sqlite guard.schema_names (sqlite.attached c) guard.conn
            (now ∙ ap (λ l. sqlite.attached c ++ l) (sym names))
            (subst (All (NotIn (sqlite.attached c))) (sym names) fresh)
            (subst (All IsSchema) (sym names) (schemas-valid sorted valid)) d,
      )

  -- An error after the connection was acquired puts the connection back into the pool as it is.
  -- Either a path is there twice, which is the error, and nothing is attached; or no path is there
  -- twice, the error is that of one spec, and the schemas of all specs before it, in the order of
  -- their paths, stay attached to the connection in the pool.
  pub acquire_reader_with_attached-fails :
      (c : C) (e : ConnError)
      → got.0 ≡ ok c
      → out.0 ≡ err e
      → (back : C) × (before after : List AttachedSpec) × (out.1
          ≡ release_reader sqlx main_db back got.1)
        × (sorted ≡ before ++ after)
        × (sqlite.attached back ≡ sqlite.attached c ++ names_of before)
        × (((before ≡ [])
              × ((path : Text) × (e ≡ duplicate_attached_database path)
                  × IsRepeated path (map (λ spec. path_of store spec.database) sorted)))
            ⊎ (Unique (map (λ spec. path_of store spec.database) sorted)
                × (spec : AttachedSpec) × (rest : List AttachedSpec) × (after ≡ spec ∷ rest)
                × Stops spec e))
  acquire_reader_with_attached-fails c e g h =
      let done = attach_readers sqlx got.1 sorted c in
      elim (acquire_reader_with_attached-cases c g) [
        | inl (path, twice, is) ↦ (
          c,
          [],
          sorted,
          ap (λ o. o.1) is,
          refl,
          sym (append-nil (sqlite.attached c)),
          inl (
            refl,
            (
              path,
              err-injective {A = AttachedReadConnection C} e (duplicate_attached_database path)
                  (sym h ∙ ap (λ o. o.0) is),
              twice,
            ),
          ),
        )
        | inr (unique, inr (names, a, is)) ↦ let r = sym (ap (λ o. o.0) is) ∙ h in absurd cc
        | inr (unique, inl (m, a, is)) ↦ elim (attach_readers-Attached sqlx sqlite got.1 sorted c) [
          | inl (n, now, fresh, valid) ↦ let r = sym n ∙ a in absurd cc
          | inr (f, before, spec, after, n, parts, stops, now) ↦ (
            done.1,
            before,
            spec ∷ after,
            ap (λ o. o.1) is,
            parts,
            now,
            inr (
              unique,
              spec,
              after,
              refl,
              subst (Stops spec)
                  (err-injective {A = List Text} f m (sym n ∙ a)
                    ∙ err-injective {A = AttachedReadConnection C} m e (sym (ap (λ o. o.0) is) ∙ h))
                  stops,
            ),
          )
        ]
      ]
