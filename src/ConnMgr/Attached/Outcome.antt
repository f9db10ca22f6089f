-- ===== src/ConnMgr/Attached/Outcome.antt =====
-- What `acquire_writer_with_attached` ends with: whose writers are held, and that none is lost.
use tauri_plugin_sqlite.Prelude.{
  ℕ, suc, ◌+◌, false, List, [], ◌∷◌, ◌++◌, map, Option, some, Text, text_eq, text_eq_refl, ◌==◌,
  if◌then◌else◌, Result, ok, err, ◌≡◌, ◌⊎◌, refl, ◌∙◌, ap, sym, subst, Result-cases, Option-cases,
  arith, inl, inr, All, Perm, sort_by-All_back, sort_by-Perm, Unique,
}
use mathlib.Core.Path.{fun_ext}
use mathlib.Core.List.Perm
use tauri_plugin_sqlite.ConnMgr.{ConnError, invalid_schema_name, duplicate_attached_database}
use tauri_plugin_sqlite.ConnMgr.Database.{Sqlx}
use tauri_plugin_sqlite.ConnMgr.Database.Writer.{Counted}
use tauri_plugin_sqlite.ConnMgr.Attached.{
  Store, AttachedSpec, WriteGuard, AttachedWriteGuard, first_duplicate, path_of, lock_order,
  db_entries, acquire_all, release_writers, take_main, attach_to_main, acquire_writer_with_attached,
  first_invalid_schema, attach_writers,
}
use tauri_plugin_sqlite.ConnMgr.Attached.LockOrder.{first_duplicate-Unique}
use tauri_plugin_sqlite.ConnMgr.Attached.Locks.{
  count_home, Accounted, guards_of, free, free-release_writers, acquire_all-Accounted,
  count_home-append,
}
use tauri_plugin_sqlite.ConnMgr.Attached.Guards.{homes, acquire_all-homes, take_main-cases}

some-injective : {A : Type 0} {a b : A} → ◌≡◌ {A = Option A} (some a) (some b) → a ≡ b
some-injective h = cc

attach_to_main-cases :
    {P C : Type 0} (sqlx : Sqlx P C) (specs : List AttachedSpec)
    (found : WriteGuard C × List (WriteGuard C)) (store : Store P)
    → let out = attach_to_main sqlx specs (some found) store in
      (writer : WriteGuard C) × (writer.home ≡ WriteGuard.home found.0)
      × (((m : ConnError) × (out
              ≡ some (err m, release_writers sqlx (found.1 ++ writer ∷ []) store)))
          ⊎ ((names : List Text) × (out
                ≡ some (
                  ok (record { writer = writer; held_writers = found.1; schema_names = names }),
                  store,
                ))))
unfolding attach_to_main
attach_to_main-cases sqlx specs found store =
    let done = attach_writers sqlx store specs (WriteGuard.conn found.0) in
    (
      record found.0 { conn = done.1 },
      refl,
      elim (Result-cases done.0) [
        | inr (m, d) ↦ inl (m, rw (attach_to_main, d) refl)
        | inl (names, d) ↦ inr (names, rw (attach_to_main, d) refl)
      ],
    )

module _ {P C : Type 0} (sqlx : Sqlx P C) (main_db : ℕ) (specs : List AttachedSpec)
    (store : Store P) where
  abbrev acquired : Result ConnError (List (WriteGuard C)) × Store P
  acquired = acquire_all sqlx (lock_order store main_db specs) [] store

  abbrev main_path : Text
  main_path = path_of store main_db

  -- The ways through the function up to the ATTACH statements.
  acquire_writer_with_attached-cases :
      ((m : ConnError) × (acquire_writer_with_attached sqlx main_db specs store
          ≡ some (err m, store)))
      ⊎ ((m : ConnError) × (acquired.0 ≡ err m)
          × (acquire_writer_with_attached sqlx main_db specs store ≡ some (err m, acquired.1)))
      ⊎ ((writers : List (WriteGuard C)) × (acquired.0 ≡ ok writers)
          × Unique (map (path_of store) (db_entries main_db specs))
          × (acquire_writer_with_attached sqlx main_db specs store
              ≡ attach_to_main sqlx specs (take_main acquired.1 main_path writers) acquired.1))
  unfolding acquire_writer_with_attached
  acquire_writer_with_attached-cases = elim (Option-cases (first_invalid_schema specs)) [
    | inr (name, i) ↦ inl (invalid_schema_name name, rw (acquire_writer_with_attached, i) refl)
    | inl i ↦
        elim (Option-cases (first_duplicate [] (map (path_of store) (db_entries main_db specs)))) [
          | inr (path, d) ↦
              inl
                (duplicate_attached_database path, rw (acquire_writer_with_attached, i) (rw d refl))
          | inl d ↦ elim (Result-cases acquired.0) [
            | inr (m, a) ↦ inr (inl (m, a, rw (acquire_writer_with_attached, i) (rw d (rw a refl))))
            | inl (writers, a) ↦ inr (
                inr (
                  writers,
                  a,
                  first_duplicate-Unique [] (map (path_of store) (db_entries main_db specs)) d,
                  rw (acquire_writer_with_attached, i) (rw d (rw a refl)),
                ))
          ]
        ]
  ]

  -- The main writer is found among the writers: `expect` does not panic.
  take_main-found :
      (writers : List (WriteGuard C))
      → acquired.0 ≡ ok writers
      → (found : WriteGuard C × List (WriteGuard C)) × (take_main acquired.1 main_path writers
          ≡ some found)
        × Perm (found.0 ∷ found.1) writers
        × ((e : ℕ) → count_home e (found.0 ∷ found.1) ≡ count_home e writers)
        × (path_of acquired.1 (WriteGuard.home found.0) ≡ main_path)
  unfolding lock_order db_entries
  take_main-found writers a = elim (take_main-cases acquired.1 main_path writers) [
    | inr found ↦ found
    | inl (n, none_is) ↦
        let at = acquire_all-homes sqlx (lock_order store main_db specs) [] writers store a in
        let entries = map (path_of store) (db_entries main_db specs) in
        let listed : All (λ p. text_eq p main_path ≡ false)
            (map (path_of store) (lock_order store main_db specs)) =
          subst (λ l. All (λ p. text_eq p main_path ≡ false) l)
            (ap (λ f. map f (homes writers)) (fun_ext at.1) ∙ ap (map (path_of store)) at.0)
            none_is in
        let first =
          sort_by-All_back (path_of store) (λ p. text_eq p main_path ≡ false)
            (db_entries main_db specs) listed in
        let same = text_eq_refl main_path in let other = first.0 in absurd cc
  ]

  -- A guard holds the writer of the main database, and with it one writer of each database that the
  -- specs name for writing, and no other.
  unfoldable pub HoldsEntries : Result ConnError (AttachedWriteGuard C) → Type 0
  HoldsEntries (ok guard) =
      Perm (homes (guard.writer ∷ guard.held_writers)) (db_entries main_db specs)
      × Unique (map (path_of store) (db_entries main_db specs))
      × (path_of store guard.writer.home ≡ path_of store main_db)
  HoldsEntries (err e) = Unit

  -- The call always returns: the main writer is found among the writers that were acquired, where
  -- the code expects it, and no loop runs on. If it returns a guard, the guard's writer is one of
  -- the main database's path, and its writers are together exactly those of the main database and of
  -- the databases attached for writing, whose paths are all different.
  pub acquire_writer_with_attached-HoldsEntries :
      (out : Result ConnError (AttachedWriteGuard C) × Store P) × (acquire_writer_with_attached sqlx
          main_db specs store
        ≡ some out)
      × HoldsEntries out.0
  unfolding HoldsEntries attach_to_main lock_order
  acquire_writer_with_attached-HoldsEntries = elim acquire_writer_with_attached-cases [
    | inl (m, a) ↦ ((err m, store), a, tt)
    | inr (inl (m, _, a)) ↦ ((err m, acquired.1), a, tt)
    | inr (inr (writers, a, unique, is)) ↦
        let (found, take, perm, count, path) = take_main-found writers a in
        let at = acquire_all-homes sqlx (lock_order store main_db specs) [] writers store a in
        let goes = is ∙ ap (λ o. attach_to_main sqlx specs o acquired.1) take in
        let (writer, home, way) = attach_to_main-cases sqlx specs found acquired.1 in
        elim way [
          | inl (m, d) ↦
              ((err m, release_writers sqlx (found.1 ++ writer ∷ []) acquired.1), goes ∙ d, tt)
          | inr (names, d) ↦ (
            (
              ok (record { writer = writer; held_writers = found.1; schema_names = names }),
              acquired.1,
            ),
            goes ∙ d,
            (
              Perm.trans
                  (subst (λ h. Perm (h ∷ homes found.1) (homes writers)) (sym home)
                    (Perm.map (λ g. WriteGuard.home g) perm))
                  (subst (λ l. Perm l (db_entries main_db specs)) (sym at.0)
                    (sort_by-Perm (path_of store) (db_entries main_db specs))),
              unique,
              ap (path_of store) home ∙ sym (at.1 (WriteGuard.home found.0)) ∙ path,
            ),
          )
        ]
  ]

  module _ (pools : Counted sqlx) where
    -- In the pool of each database: on an error, the duplicates, the failure to acquire a writer in
    -- the middle of the others and a failing ATTACH included, as many writers are free afterwards as
    -- were before, and with a guard, as many less as the guard holds of it.
    pub acquire_writer_with_attached-Accounted :
        (out : Result ConnError (AttachedWriteGuard C) × Store P) (e : ℕ)
        → acquire_writer_with_attached sqlx main_db specs store ≡ some out
        → Accounted e (guards_of out.0) (free sqlx pools out.1 e) (free sqlx pools store e)
    unfolding Accounted count_home
    acquire_writer_with_attached-Accounted out e h =
        let Goal : Result ConnError (AttachedWriteGuard C) × Store P → Type 0 =
          λ o. Accounted e (guards_of o.0) (free sqlx pools o.1 e) (free sqlx pools store e) in
        let all_of = acquire_all-Accounted sqlx pools (lock_order store main_db specs) [] store e in
        let accounts_of : Result ConnError (List (WriteGuard C)) → Type 0 =
          λ r. Accounted e r (free sqlx pools acquired.1 e) (0 + free sqlx pools store e) in
        elim acquire_writer_with_attached-cases [
          | inl (m, a) ↦ subst Goal (some-injective (sym a ∙ h)) refl
          | inr (inl (m, f, a)) ↦
              let left = subst accounts_of f all_of in
              subst Goal (some-injective (sym a ∙ h)) (omega (arith, left))
          | inr (inr (writers, a, unique, is)) ↦
              let held = subst accounts_of a all_of in
              let (found, take, perm, count, path) = take_main-found writers a in
              let goes = is ∙ ap (λ o. attach_to_main sqlx specs o acquired.1) take in
              let (writer, home, way) = attach_to_main-cases sqlx specs found acquired.1 in
              let counted : count_home e (writer ∷ found.1) ≡ count_home e writers =
                ap (λ d. if e == d then suc (count_home e found.1) else count_home e found.1) home
                ∙ count e in
              elim way [
                | inl (m, d) ↦
                    let back =
                      free-release_writers sqlx pools (found.1 ++ writer ∷ []) acquired.1 e in
                    let one = count_home-append e (writer ∷ []) found.1 in
                    let end = count_home-append e found.1 (writer ∷ []) in
                    subst Goal (some-injective (sym (goes ∙ d) ∙ h))
                      (omega (arith, back, one, end, counted, held))
                | inr (names, d) ↦
                    subst Goal (some-injective (sym (goes ∙ d) ∙ h)) (omega (arith, counted, held))
              ]
        ]
