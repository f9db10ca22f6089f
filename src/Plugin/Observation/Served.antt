-- ===== src/Plugin/Observation/Served.antt =====
-- Subscriptions that are removed, added and kept: what holds of each of them, and how many a
-- database has.
use tauri_plugin_sqlite.Prelude.{
  ◌+◌, ◌≤◌, ◌≡◌, refl, inl, inr, false, [], ◌∷◌, none, some, arith, Text, text_eq, Map, find, put,
  erase, Distinct, All, Bool-cases, if◌then◌else◌,
}
use tauri_plugin_sqlite.Plugin.Subscriptions.{ActiveSubscription, count_for_db}
use tauri_plugin_sqlite.Plugin.Subscriptions.Filtered.{others}

module _ {H : Type 0} where
  -- A property of each subscription.
  abbrev pub Each : (ActiveSubscription H → Type 0) → Map (ActiveSubscription H) → Type 0
  Each P = All (λ (e : Text × ActiveSubscription H). P e.1)

  module _ (P : ActiveSubscription H → Type 0) where
    pub others-Each :
        (p : Text) (subs : Map (ActiveSubscription H))
        → Each P subs
        → Each (λ sub. P sub × (text_eq sub.db_path p ≡ false)) (others subs p)
    unfolding others
    others-Each p [] h = tt
    others-Each p ((id, sub) ∷ subs) h = elim (Bool-cases (text_eq sub.db_path p)) [
      | inl e ↦ rw e (others-Each p subs h.1)
      | inr e ↦ rw e ((h.0, e), others-Each p subs h.1)
    ]

    pub erase-Each :
        (k : Text) (subs : Map (ActiveSubscription H)) → Each P subs → Each P (erase k subs)
    unfolding erase
    erase-Each k [] h = tt
    erase-Each k ((id, sub) ∷ subs) h = elim (Bool-cases (text_eq id k)) [
      | inl e ↦ rw e h.1
      | inr e ↦ rw e (h.0, erase-Each k subs h.1)
    ]

    pub put-Each :
        (k : Text) (new : ActiveSubscription H) (subs : Map (ActiveSubscription H))
        → P new
        → Each P subs
        → Each P (put k new subs)
    unfolding put
    put-Each k new [] p h = (p, tt)
    put-Each k new ((id, sub) ∷ subs) p h = elim (Bool-cases (text_eq id k)) [
      | inl e ↦ rw e (p, h.1)
      | inr e ↦ rw e (h.0, put-Each k new subs p h.1)
    ]

  pub others-find :
      (k p : Text) (subs : Map (ActiveSubscription H))
      → find k subs ≡ none
      → find k (others subs p) ≡ none
  unfolding others find
  others-find k p [] h = refl
  others-find k p ((id, sub) ∷ subs) h = elim (Bool-cases (text_eq id k)) [
    | inl e ↦ absurd (let r : some sub ≡ none = rw (find, e) at h in cc)
    | inr e ↦
        let rest : find k subs ≡ none = rw (find, e) at h in
        elim (Bool-cases (text_eq sub.db_path p)) [
          | inl f ↦ rw f (others-find k p subs rest)
          | inr f ↦ rw f (rw e (others-find k p subs rest))
        ]
  ]

  pub others-Distinct :
      (p : Text) (subs : Map (ActiveSubscription H)) → Distinct subs → Distinct (others subs p)
  unfolding others Distinct
  others-Distinct p [] d = tt
  others-Distinct p ((id, sub) ∷ subs) d = elim (Bool-cases (text_eq sub.db_path p)) [
    | inl e ↦ rw e (others-Distinct p subs d.1)
    | inr e ↦ rw e (others-find id p subs d.0, others-Distinct p subs d.1)
  ]

  pub others-count :
      (p q : Text) (subs : Map (ActiveSubscription H))
      → count_for_db (others subs p) q ≤ count_for_db subs q
  unfolding others count_for_db
  others-count p q [] = omega arith
  others-count p q ((id, sub) ∷ subs) = ground (arith, others-count p q subs)

  pub erase-count :
      (k q : Text) (subs : Map (ActiveSubscription H))
      → count_for_db (erase k subs) q ≤ count_for_db subs q
  unfolding erase count_for_db
  erase-count k q [] = omega arith
  erase-count k q ((id, sub) ∷ subs) = ground (arith, erase-count k q subs)

  pub put-count :
      (k q : Text) (new : ActiveSubscription H) (subs : Map (ActiveSubscription H))
      → count_for_db (put k new subs) q
        ≤ (if text_eq new.db_path q then 1 else 0) + count_for_db subs q
  unfolding put count_for_db
  put-count k q new [] = ground arith
  put-count k q new ((id, sub) ∷ subs) = ground (arith, put-count k q new subs)
