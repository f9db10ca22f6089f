-- ===== src/ConnMgr/Attached/Locks.antt =====
-- The writers that `acquire_writer_with_attached` holds, counted in the pools they come from.
use tauri_plugin_sqlite.Prelude.{
  ℕ, suc, ◌+◌, Bool, true, false, List, [], ◌∷◌, ◌++◌, if◌then◌else◌, Result, ok, err, ◌==◌, ==_iff,
  ◌≡◌, refl, ◌∙◌, ap, sym, subst, Bool-cases, Result-cases, arith, inl, inr,
}
use tauri_plugin_sqlite.ConnMgr.{ConnError}
use tauri_plugin_sqlite.ConnMgr.Database.{Sqlx, SqliteDatabase, acquire_writer}
use tauri_plugin_sqlite.ConnMgr.Database.Writer.{Counted, Balanced, acquire_writer-Balanced}
use tauri_plugin_sqlite.ConnMgr.Attached.{
  Store, update, WriteGuard, AttachedWriteGuard, acquire_all, release_writers, release_writer,
}

-- The guards that return to the pool of a database.
unfoldable pub count_home : {C : Type 0} → ℕ → List (WriteGuard C) → ℕ
count_home e [] = 0
count_home e (g ∷ gs) = let rest = count_home e gs in if e == g.home then suc rest else rest

-- What a result holds, and what is free after it, is what was free before it.
unfoldable pub Accounted :
    {C : Type 0} → ℕ → Result ConnError (List (WriteGuard C)) → ℕ → ℕ → Type 0
unfolding count_home
Accounted e (ok guards) after before = count_home e guards + after ≡ before
Accounted e (err m) after before = after ≡ before

abbrev pub guards_of :
    {C : Type 0} → Result ConnError (AttachedWriteGuard C) → Result ConnError (List (WriteGuard C))
guards_of (ok guard) = ok (guard.writer ∷ guard.held_writers)
guards_of (err e) = err e

pub count_home-append :
    {C : Type 0} (e : ℕ) (gs hs : List (WriteGuard C))
    → count_home e (gs ++ hs) ≡ count_home e gs + count_home e hs
unfolding count_home
count_home-append e [] hs = omega arith
count_home-append e (g ∷ gs) hs = ground (arith, count_home-append e gs hs)

zero_if : (b : Bool) (n m : ℕ) → b ≡ false → m ≡ (if b then n else 0) + m
zero_if b n m h = ground arith

module _ {P : Type 0} (d : ℕ) (db : SqliteDatabase P) (store : Store P) (e : ℕ) where
  pub update-same : (e == d) ≡ true → update d db store e ≡ db
  update-same q = rw q refl

  pub update-other : (e == d) ≡ false → update d db store e ≡ store e
  update-other q = rw q refl

module _ {P C : Type 0} (sqlx : Sqlx P C) (d : ℕ) (ds : List ℕ) (held : List (WriteGuard C))
    (store : Store P) where
  pub acquire_all-taken :
      (c : C)
      → (acquire_writer sqlx (store d)).0 ≡ ok c
      → acquire_all sqlx (d ∷ ds) held store
        ≡ acquire_all sqlx ds
            (held ++ record { home = d; conn = c } ∷ [])
            (update d (acquire_writer sqlx (store d)).1 store)
  unfolding acquire_all
  acquire_all-taken c h = rw (acquire_all, h) refl

  pub acquire_all-failed :
      (m : ConnError)
      → (acquire_writer sqlx (store d)).0 ≡ err m
      → acquire_all sqlx (d ∷ ds) held store
        ≡ (err m, release_writers sqlx held (update d (acquire_writer sqlx (store d)).1 store))
  unfolding acquire_all
  acquire_all-failed m h = rw (acquire_all, h) refl

module _ {P C : Type 0} (sqlx : Sqlx P C) (pools : Counted sqlx) where
  -- The writers that are free in the pool of a database.
  abbrev pub free : Store P → ℕ → ℕ
  free store e = pools.available (store e).write_conn

  free-update :
      (d e : ℕ) (db : SqliteDatabase P) (store : Store P) (n : ℕ)
      → pools.available db.write_conn ≡ n + free store d
      → free (update d db store) e ≡ (if e == d then n else 0) + free store e
  free-update d e db store n h = elim (Bool-cases (e == d)) [
    | inl q ↦
        ap (λ x. pools.available x.write_conn) (update-same d db store e q)
        ∙ (h ∙ (rw q (ap (λ x. n + free store x) (sym ((==_iff e d).0 q)))))
    | inr q ↦
        ap (λ x. pools.available x.write_conn) (update-other d db store e q)
        ∙ zero_if (e == d) n (free store e) q
  ]

  free-release_writer :
      (g : WriteGuard C) (store : Store P) (e : ℕ)
      → free (release_writer sqlx g store) e ≡ count_home e (g ∷ []) + free store e
  unfolding count_home
  free-release_writer g store e =
      free-update g.home e
        (record (store g.home) { write_conn = sqlx.release g.conn (store g.home).write_conn }) store
        1 (pools.release_frees g.conn (store g.home).write_conn ∙ omega arith)

  pub free-release_writers :
      (gs : List (WriteGuard C)) (store : Store P) (e : ℕ)
      → free (release_writers sqlx gs store) e ≡ count_home e gs + free store e
  unfolding release_writers count_home
  free-release_writers [] store e = omega arith
  free-release_writers (g ∷ gs) store e =
      let rest = free-release_writers gs (release_writer sqlx g store) e in
      let one = free-release_writer g store e in
      omega (arith, rest, one, count_home-append e (g ∷ []) gs)

  free-update_taken :
      (d e : ℕ) (db : SqliteDatabase P) (store : Store P) (n : ℕ)
      → free store d ≡ n + pools.available db.write_conn
      → free store e ≡ (if e == d then n else 0) + free (update d db store) e
  free-update_taken d e db store n h = elim (Bool-cases (e == d)) [
    | inl q ↦
        ap (free store) ((==_iff e d).0 q)
        ∙ (h ∙ rw q (ap (λ x. n + pools.available x.write_conn) (sym (update-same d db store e q))))
    | inr q ↦
        ap (λ x. pools.available x.write_conn) (sym (update-other d db store e q))
        ∙ zero_if (e == d) n (free (update d db store) e) q
  ]

  acquire-taken :
      (d e : ℕ) (store : Store P) (c : C)
      → (acquire_writer sqlx (store d)).0 ≡ ok c
      → free store e
        ≡ count_home e (record { home = d; conn = c } ∷ [])
          + free (update d (acquire_writer sqlx (store d)).1 store) e
  unfolding count_home Balanced
  acquire-taken d e store c h =
      let got = acquire_writer sqlx (store d) in
      free-update_taken d e got.1 store 1 (
        subst (λ r. Balanced r (free store d) (pools.available got.1.write_conn)) h
          (acquire_writer-Balanced sqlx pools (store d))
        ∙ omega arith)

  acquire-failed :
      (d e : ℕ) (store : Store P) (m : ConnError)
      → (acquire_writer sqlx (store d)).0 ≡ err m
      → free store e ≡ free (update d (acquire_writer sqlx (store d)).1 store) e
  unfolding Balanced
  acquire-failed d e store m h =
      let got = acquire_writer sqlx (store d) in
      let same : free store d ≡ 0 + pools.available got.1.write_conn =
        subst (λ r. Balanced r (free store d) (pools.available got.1.write_conn)) h
          (acquire_writer-Balanced sqlx pools (store d))
        ∙ omega arith in
      let step = free-update_taken d e got.1 store 0 same in ground (arith, step)

  pub acquire_all-Accounted :
      (ds : List ℕ) (held : List (WriteGuard C)) (store : Store P) (e : ℕ)
      → Accounted e
          (acquire_all sqlx ds held store).0
          (free (acquire_all sqlx ds held store).1 e)
          (count_home e held + free store e)
  unfolding acquire_all Accounted
  acquire_all-Accounted [] held store e = refl
  acquire_all-Accounted (d ∷ ds) held store e =
      let left = update d (acquire_writer sqlx (store d)).1 store in
      let Goal : Result ConnError (List (WriteGuard C)) × Store P → Type 0 =
        λ out. Accounted e out.0 (free out.1 e) (count_home e held + free store e) in
      elim (Result-cases (acquire_writer sqlx (store d)).0) [
        | inl (c, a) ↦
            let guard : WriteGuard C = record { home = d; conn = c } in
            let out = acquire_all sqlx ds (held ++ guard ∷ []) left in
            subst Goal (sym (acquire_all-taken sqlx d ds held store c a)) (
              subst (Accounted e out.0 (free out.1 e))
                (omega (arith, count_home-append e held (guard ∷ []), acquire-taken d e store c a))
                (acquire_all-Accounted ds (held ++ guard ∷ []) left e))
        | inr (m, a) ↦ subst Goal (sym (acquire_all-failed sqlx d ds held store m a)) (
            free-release_writers held left e
            ∙ ap (λ n. count_home e held + n) (sym (acquire-failed d e store m a)))
      ]
