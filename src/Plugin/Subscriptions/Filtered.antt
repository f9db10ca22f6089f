-- ===== src/Plugin/Subscriptions/Filtered.antt =====
-- `remove_for_db` aborts the subscriptions of one database and keeps the others.
use tauri_plugin_sqlite.Prelude.{
  ◌≡◌, refl, ap, ◌∙◌, inl, inr, Bool, true, false, List, [], ◌∷◌, ◌++◌, none, some, arith, Text,
  text_eq, text_eq_refl, text_eq_comm, Map, find, erase, Distinct, if◌then◌else◌, All, Bool-cases,
  Option-cases,
}
use tauri_plugin_sqlite.Plugin.Subscriptions.{
  ActiveSubscription, remove_subscription, keys_to_remove, remove_keys, remove_for_db,
}

module _ {H : Type 0} where
  -- The subscriptions of the other databases.
  unfoldable pub others : Map (ActiveSubscription H) → Text → Map (ActiveSubscription H)
  others [] p = []
  others ((id, sub) ∷ subs) p =
      let rest = others subs p in if text_eq sub.db_path p then rest else (id, sub) ∷ rest

  -- The handles of the subscriptions of this database.
  unfoldable pub handles : Map (ActiveSubscription H) → Text → List H
  handles [] p = []
  handles ((id, sub) ∷ subs) p =
      let rest = handles subs p in if text_eq sub.db_path p then sub.abort_handle ∷ rest else rest

  keys_to_remove-All :
      (id p : Text) (subs : Map (ActiveSubscription H))
      → find id subs ≡ none
      → All (λ k. text_eq id k ≡ false) (keys_to_remove subs p)
  unfolding keys_to_remove find
  keys_to_remove-All id p [] h = tt
  keys_to_remove-All id p ((k, sub) ∷ subs) h = elim (Bool-cases (text_eq k id)) [
    | inl e ↦ absurd (let r : find id ((k, sub) ∷ subs) ≡ some sub = rw e refl in cc)
    | inr e ↦
        let rest = keys_to_remove-All id p subs (ground arith) in
        elim (Bool-cases (text_eq sub.db_path p)) [
          | inl f ↦ rw f (text_eq_comm id k ∙ e, rest)
          | inr f ↦ rw f rest
        ]
  ]

  remove_subscription-head :
      (id : Text) (sub : ActiveSubscription H) (subs : Map (ActiveSubscription H))
      → remove_subscription ((id, sub) ∷ subs) id ≡ (subs, sub.abort_handle ∷ [], true)
  unfolding remove_subscription find erase
  remove_subscription-head id sub subs =
      rw (text_eq_refl id, remove_subscription) (rw (text_eq_refl id) refl)

  remove_subscription-skip :
      (id k : Text) (sub : ActiveSubscription H) (subs : Map (ActiveSubscription H))
      → text_eq id k ≡ false
      → remove_subscription ((id, sub) ∷ subs) k ≡ (
        (id, sub) ∷ (remove_subscription subs k).0,
        (remove_subscription subs k).1,
        (remove_subscription subs k).2,
      )
  unfolding remove_subscription find erase
  remove_subscription-skip id k sub subs h = elim (Option-cases (find k subs)) [
    | inl e ↦ rw (h, e, remove_subscription) refl
    | inr (s, e) ↦ rw (h, e, remove_subscription) (rw h refl)
  ]

  -- One round of `remove_keys`.
  abbrev then_remove :
      List Text → Map (ActiveSubscription H) × List H × Bool → Map (ActiveSubscription H) × List H
  then_remove keys one = ((remove_keys one.0 keys).0, one.1 ++ (remove_keys one.0 keys).1)

  remove_keys-head :
      (id : Text) (sub : ActiveSubscription H) (subs : Map (ActiveSubscription H))
      (keys : List Text)
      → All (λ k. text_eq id k ≡ false) keys
      → remove_keys ((id, sub) ∷ subs) keys
        ≡ ((id, sub) ∷ (remove_keys subs keys).0, (remove_keys subs keys).1)
  unfolding remove_keys
  remove_keys-head id sub subs [] h = refl
  remove_keys-head id sub subs (k ∷ keys) h =
      let one = remove_subscription subs k in
      ap (then_remove keys) (remove_subscription-skip id k sub subs h.0)
      ∙ ap (λ (r : Map (ActiveSubscription H) × List H). (r.0, one.1 ++ r.1))
          (remove_keys-head id sub one.0 keys h.1)

  -- With different ids, `remove_for_db` leaves the subscriptions of the other databases in their
  -- order, and aborts the handle of each subscription of this one, once.
  pub remove_for_db-filtered :
      (subs : Map (ActiveSubscription H)) (p : Text)
      → Distinct subs
      → remove_for_db subs p ≡ (others subs p, handles subs p)
  unfolding remove_for_db remove_keys remove_subscription keys_to_remove others handles Distinct
      find erase
  remove_for_db-filtered [] p d = refl
  remove_for_db-filtered ((id, sub) ∷ subs) p d = elim (Bool-cases (text_eq sub.db_path p)) [
    | inl e ↦ rw e (
        ap (then_remove (keys_to_remove subs p)) (remove_subscription-head id sub subs)
        ∙ ap (λ (r : Map (ActiveSubscription H) × List H). (r.0, sub.abort_handle ∷ r.1))
            (remove_for_db-filtered subs p d.1))
    | inr e ↦ rw e (
        remove_keys-head id sub subs (keys_to_remove subs p) (keys_to_remove-All id p subs d.0)
        ∙ ap (λ (r : Map (ActiveSubscription H) × List H). ((id, sub) ∷ r.0, r.1))
            (remove_for_db-filtered subs p d.1))
  ]
