-- ===== src/ConnMgr/Attached/Guards.antt =====
-- Which writers the guard of `acquire_writer_with_attached` holds.
use tauri_plugin_sqlite.Prelude.{
  ℕ, false, List, [], ◌∷◌, ◌++◌, map, none, some, Text, text_eq, text_eq→≡, ok, err, ◌==◌, ==_iff,
  ◌⊎◌, ◌≡◌, refl, ◌∙◌, ap, sym, Bool-cases, Result-cases, arith, inl, inr, append-nil, All, Perm,
  ok-injective,
}
use mathlib.Core.List.Perm
use tauri_plugin_sqlite.ConnMgr.Database.{Sqlx, acquire_writer}
use tauri_plugin_sqlite.ConnMgr.Database.Writer.{acquire_writer-path}
use tauri_plugin_sqlite.ConnMgr.Attached.{
  Store, update, WriteGuard, path_of, acquire_all, take_main,
}
use tauri_plugin_sqlite.ConnMgr.Attached.Locks.{
  count_home, acquire_all-taken, acquire_all-failed, update-same, update-other,
}

abbrev pub homes : {C : Type 0} → List (WriteGuard C) → List ℕ
homes guards = map (λ g. WriteGuard.home g) guards

homes-push :
    {C : Type 0} (held : List (WriteGuard C)) (g : WriteGuard C) (ds : List ℕ)
    → homes (held ++ g ∷ []) ++ ds ≡ homes held ++ g.home ∷ ds
homes-push [] g ds = refl
homes-push (h ∷ hs) g ds = ap (◌∷◌ h.home) (homes-push hs g ds)

module _ {P C : Type 0} (sqlx : Sqlx P C) where
  acquire-path :
      (d e : ℕ) (store : Store P)
      → path_of (update d (acquire_writer sqlx (store d)).1 store) e ≡ path_of store e
  acquire-path d e store =
      let db = (acquire_writer sqlx (store d)).1 in
      elim (Bool-cases (e == d)) [
        | inl q ↦
            ap (λ x. x.path) (update-same d db store e q)
            ∙ acquire_writer-path sqlx (store d)
            ∙ ap (path_of store) (sym ((==_iff e d).0 q))
        | inr q ↦ ap (λ x. x.path) (update-other d db store e q)
      ]

  -- The writers stand in the order of the entries, and the paths are the same.
  pub acquire_all-homes :
      (ds : List ℕ) (held guards : List (WriteGuard C)) (store : Store P)
      → (acquire_all sqlx ds held store).0 ≡ ok guards
      → (homes guards ≡ homes held ++ ds)
        × ((e : ℕ) → path_of (acquire_all sqlx ds held store).1 e ≡ path_of store e)
  unfolding acquire_all
  acquire_all-homes [] held guards store h =
      (ap homes (sym (ok-injective held guards h)) ∙ sym (append-nil (homes held)), λ e. refl)
  acquire_all-homes (d ∷ ds) held guards store h =
      let left = update d (acquire_writer sqlx (store d)).1 store in
      elim (Result-cases (acquire_writer sqlx (store d)).0) [
        | inr (m, a) ↦
            let failed : err m ≡ ok guards =
              ap (λ out. out.0) (sym (acquire_all-failed sqlx d ds held store m a)) ∙ h in
            absurd cc
        | inl (c, a) ↦
            let guard : WriteGuard C = record { home = d; conn = c } in
            let taken = acquire_all-taken sqlx d ds held store c a in
            let rest =
              acquire_all-homes ds (held ++ guard ∷ []) guards left
                (ap (λ out. out.0) (sym taken) ∙ h) in
            (
              rest.0 ∙ homes-push held guard ds,
              λ e. ap (λ out. path_of out.1 e) taken ∙ (rest.1 e ∙ acquire-path d e store),
            )
      ]

pub take_main-cases :
    {P C : Type 0} (store : Store P) (main_path : Text) (guards : List (WriteGuard C))
    → ((take_main store main_path guards ≡ none)
        × All (λ p. text_eq p main_path ≡ false) (map (path_of store) (homes guards)))
      ⊎ ((found : WriteGuard C × List (WriteGuard C)) × (take_main store main_path guards
            ≡ some found)
          × Perm (found.0 ∷ found.1) guards
          × ((e : ℕ) → count_home e (found.0 ∷ found.1) ≡ count_home e guards)
          × (path_of store (WriteGuard.home found.0) ≡ main_path))
unfolding take_main count_home
take_main-cases store main_path [] = inl (refl, tt)
take_main-cases store main_path (g ∷ gs) =
    elim (Bool-cases (text_eq (path_of store g.home) main_path)) [
      | inl e ↦ inr (
        (g, gs),
        rw (take_main, e) refl,
        Perm.refl (g ∷ gs),
        λ e. refl,
        text_eq→≡ (path_of store g.home) main_path e,
      )
      | inr e ↦ elim (take_main-cases store main_path gs) [
        | inl (n, a) ↦ inl (rw (take_main, e) (rw n refl), (e, a))
        | inr (found, f, perm, count, path) ↦ inr (
          (found.0, g ∷ found.1),
          rw (take_main, e) (rw f refl),
          Perm.trans (Perm.swap g found.0 found.1) (Perm.cons g perm),
          λ e. grind (arith, count e),
          path,
        )
      ]
    ]
