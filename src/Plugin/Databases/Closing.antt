-- ===== src/Plugin/Databases/Closing.antt =====
-- What closing leaves: of a database, and of all.
use tauri_plugin_sqlite.Prelude.{
  suc, false, [], ◌∷◌, Option, none, some, Text, text_eq, text_eq→≡, Map, find, Result, ok, err,
  ◌≡◌, ◌↔◌, refl, ◌∙◌, ap, sym, Bool-cases, Option-cases, Result-cases, inl, inr, find-erase,
  find-erase_other, Distinct, All,
}
use tauri_plugin_sqlite.Plugin.{PluginError}
use tauri_plugin_sqlite.Plugin.Subscriptions.{ActiveSubscription, count_for_db}
use tauri_plugin_sqlite.Plugin.Subscriptions.Filtered.{others, remove_for_db-filtered}
use tauri_plugin_sqlite.Plugin.Databases.{DbInstances, close_database, close_all, close_loop}

module _ {H : Type 0} where
  count_for_db-others :
      (subs : Map (ActiveSubscription H)) (p : Text) → count_for_db (others subs p) p ≡ 0
  unfolding count_for_db others
  count_for_db-others [] p = refl
  count_for_db-others ((id, sub) ∷ subs) p = elim (Bool-cases (text_eq sub.db_path p)) [
    | inl e ↦ rw e (count_for_db-others subs p)
    | inr e ↦ rw e (rw e (count_for_db-others subs p))
  ]

  count_for_db-others_than :
      (subs : Map (ActiveSubscription H)) (p q : Text)
      → text_eq p q ≡ false
      → count_for_db (others subs p) q ≡ count_for_db subs q
  unfolding count_for_db others
  count_for_db-others_than [] p q d = refl
  count_for_db-others_than ((id, sub) ∷ subs) p q d = elim (Bool-cases (text_eq sub.db_path p)) [
    | inl e ↦
        let other = ap (λ t. text_eq t q) (text_eq→≡ sub.db_path p e) ∙ d in
        rw e (rw other (count_for_db-others_than subs p q d))
    | inr e ↦ elim (Bool-cases (text_eq sub.db_path q)) [
      | inl f ↦ rw e (rw f (ap suc (count_for_db-others_than subs p q d)))
      | inr f ↦ rw e (rw f (count_for_db-others_than subs p q d))
    ]
  ]

  module _ {W : Type 0} (shut : W → Result PluginError (Unit {0})) (instances : DbInstances W)
      (subs : Map (ActiveSubscription H)) where
    -- After `close` or `remove` of a database, whether closing the wrapper succeeds or not, the
    -- database is not loaded and has no subscription; every other database is loaded as before,
    -- with as many subscriptions as before.
    pub close_database-closes :
        (db other : Text)
        → Distinct instances.inner
        → Distinct subs
        → text_eq db other ≡ false
        → let out = close_database shut db instances subs in
          (find db (DbInstances.inner out.1) ≡ none)
          × (count_for_db out.2 db ≡ 0)
          × (find other (DbInstances.inner out.1) ≡ find other instances.inner)
          × (count_for_db out.2 other ≡ count_for_db subs other)
    unfolding close_database
    close_database-closes db other d e n =
        let aborted = ap (λ r. r.0) (remove_for_db-filtered subs db e) in
        let mine = ap (λ s. count_for_db s db) aborted ∙ count_for_db-others subs db in
        let theirs =
          ap (λ s. count_for_db s other) aborted ∙ count_for_db-others_than subs db other n in
        elim (Option-cases (find db instances.inner)) [
          | inl f ↦ rw (close_database, f) (f, mine, refl, theirs)
          | inr (w, f) ↦
              rw (close_database, f)
                (
                  find-erase db instances.inner d,
                  mine,
                  find-erase_other other db instances.inner n,
                  theirs,
                )
        ]

module _ {W : Type 0} (shut : W → Result PluginError (Unit {0})) where
  close_loop-none :
      (m : Map W) (last : Option PluginError)
      → (close_loop shut m last ≡ none) ↔ ((last ≡ none) × All (λ e. shut e.1 ≡ ok tt) m)
  unfolding close_loop
  close_loop-none [] last = (λ h. (h, tt), λ h. h.0)
  close_loop-none ((k, w) ∷ m) last = elim (Result-cases (shut w)) [
    | inl (u, s) ↦
        let is : close_loop shut ((k, w) ∷ m) last ≡ close_loop shut m last =
          rw (close_loop, s) refl in
        let rest = close_loop-none m last in
        (λ h. let r = rest.0 (sym is ∙ h) in (r.0, (s, r.1)), λ h. is ∙ rest.1 (h.0, h.1.1))
    | inr (e, s) ↦
        let is : close_loop shut ((k, w) ∷ m) last ≡ close_loop shut m (some e) =
          rw (close_loop, s) refl in
        let rest = close_loop-none m (some e) in
        (λ h. let r = (rest.0 (sym is ∙ h)).0 in absurd cc, λ h. let r = sym s ∙ h.1.0 in absurd cc)
  ]

  -- `close_all` closes every wrapper, past those that fail, and unloads all databases: it answers
  -- without an error exactly if closing every wrapper succeeds.
  close_all_iff :
      {H : Type 0} (instances : DbInstances W) (subs : Map (ActiveSubscription H))
      → let out = close_all shut instances subs in
        (DbInstances.inner out.1 ≡ [])
        × (out.2 ≡ [])
        × ((out.0 ≡ ok tt) ↔ All (λ e. shut e.1 ≡ ok tt) instances.inner)
  unfolding close_all
  close_all_iff instances subs = (
    refl,
    refl,
    elim (Option-cases (close_loop shut instances.inner none)) [
      | inl c ↦ (λ h. ((close_loop-none instances.inner none).0 c).1, λ h. rw (close_all, c) refl)
      | inr (e, c) ↦ (
        λ h. let r : err e ≡ ok tt = rw (close_all, c) at h in absurd cc,
        λ h. let r = sym c ∙ (close_loop-none instances.inner none).1 (refl, h) in absurd cc,
      )
    ],
  )
