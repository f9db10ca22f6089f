-- ===== src/Toolkit/Transactions/Registry.antt =====
-- crates/sqlx-sqlite-toolkit/src/transactions.rs, `remove` and `insert`: when they succeed, and what
-- they leave of the registry.
use tauri_plugin_sqlite.Toolkit.Transactions.{
  Call, call_insert, call_remove, call_abort_all, perform, run, abort_all,
}
use tauri_plugin_sqlite.Prelude.{put-Distinct, erase-Distinct, Distinct, List, [], ◌∷◌}
use tauri_plugin_sqlite.Prelude.{
  ℕ, ◌-◌, ◌<◌, ◌≡◌, ◌↔◌, refl, sym, ◌∙◌, inl, inr, true, false, [], none, some, arith, Text,
  text_eq, find, erase, find-put_other, find-erase_other, ok, err, Bool-cases, Option-cases,
  ok-injective, subst,
}
use tauri_plugin_sqlite.Toolkit.{
  no_active_transaction, invalid_transaction_token, transaction_timed_out,
}
use tauri_plugin_sqlite.Toolkit.Transactions.{
  ActiveInterruptibleTransaction, ActiveInterruptibleTransactions, has_expired, insert, remove,
}

module _ {W : Type 0} where
  -- What `remove` gives out is at this path, the token is its own, and it is young enough.
  abbrev pub Takes :
      ℕ
      → Text
      → Text
      → ActiveInterruptibleTransactions W
      → ActiveInterruptibleTransaction W
      → Type 0
  Takes now k token txs tx =
      (find k txs.inner ≡ some tx)
      × (text_eq tx.transaction_id token ≡ true)
      × (now - tx.created_at < txs.timeout)

  module _ (now : ℕ) (k token : Text) (txs : ActiveInterruptibleTransactions W)
      (tx : ActiveInterruptibleTransaction W) where
    pub remove-ok : Takes now k token txs tx → (remove now k token txs).result ≡ ok tx
    unfolding remove
    remove-ok (e, t, young) =
        let x : has_expired txs.timeout now tx ≡ false = ground arith in rw (e, t, x, remove) refl

    ok-Takes : (remove now k token txs).result ≡ ok tx → Takes now k token txs tx
    unfolding remove
    ok-Takes h = elim (Option-cases (find k txs.inner)) [
      | inl e ↦ absurd (absent e)
      | inr (old, e) ↦ elim (Bool-cases (text_eq old.transaction_id token)) [
        | inl t ↦ elim (Bool-cases (has_expired txs.timeout now old)) [
          | inl x ↦ absurd (late old e t x)
          | inr x ↦
              subst (Takes now k token txs)
                (ok-injective old tx (sym (rw (e, t, x, remove) refl) ∙ h)) (e, t, ground arith)
        ]
        | inr t ↦ absurd (wrong old e t)
      ]
    ]
      where
        absent : find k txs.inner ≡ none → ⊥
        absent e =
            let r : (remove now k token txs).result ≡ err (no_active_transaction k) =
              rw (e, remove) refl in
            cc

        late :
            (old : ActiveInterruptibleTransaction W)
            → find k txs.inner ≡ some old
            → text_eq old.transaction_id token ≡ true
            → has_expired txs.timeout now old ≡ true
            → ⊥
        late old e t x =
            let r : (remove now k token txs).result ≡ err (transaction_timed_out k) =
              rw (e, t, x, remove) refl in
            cc

        wrong :
            (old : ActiveInterruptibleTransaction W)
            → find k txs.inner ≡ some old
            → text_eq old.transaction_id token ≡ false
            → ⊥
        wrong old e t =
            let r : (remove now k token txs).result ≡ err invalid_transaction_token =
              rw (e, t, remove) refl in
            cc

    -- `remove` gives a transaction out exactly when it is the one at this path, the token is its own
    -- and its age is below the timeout.
    remove_iff : ((remove now k token txs).result ≡ ok tx) ↔ (
        (find k txs.inner ≡ some tx)
        × (text_eq tx.transaction_id token ≡ true)
        × (now - tx.created_at < txs.timeout))
    remove_iff = (ok-Takes, remove-ok)

  -- Without its entry.
  abbrev pub without : Text → ActiveInterruptibleTransactions W → ActiveInterruptibleTransactions W
  without k txs = record txs { inner = erase k txs.inner }

  pub remove-taken :
      (now : ℕ) (k token : Text) (txs : ActiveInterruptibleTransactions W)
      (tx : ActiveInterruptibleTransaction W)
      → Takes now k token txs tx
      → remove now k token txs ≡ record { result = ok tx; registry = without k txs; dropped = [] }
  unfolding remove
  remove-taken now k token txs tx (e, t, young) =
      let x : has_expired txs.timeout now tx ≡ false = ground arith in rw (e, t, x, remove) refl

  pub remove-ok_drops :
      (now : ℕ) (k token : Text) (txs : ActiveInterruptibleTransactions W)
      (tx : ActiveInterruptibleTransaction W)
      → (remove now k token txs).result ≡ ok tx
      → (remove now k token txs).dropped ≡ []
  unfolding remove
  remove-ok_drops now k token txs tx h =
      let (e, t, young) = ok-Takes now k token txs tx h in
      let x : has_expired txs.timeout now tx ≡ false = ground arith in rw (e, t, x, remove) refl

  -- The entry of another path, and the timeout, are as before.
  abbrev Beside :
      Text → ActiveInterruptibleTransactions W → ActiveInterruptibleTransactions W → Type 0
  Beside j before after =
      (find j after.inner ≡ find j before.inner) × (after.timeout ≡ before.timeout)

  pub insert-Beside :
      (now : ℕ) (k j : Text) (tx : ActiveInterruptibleTransaction W)
      (txs : ActiveInterruptibleTransactions W)
      → text_eq k j ≡ false
      → Beside j txs (insert now k tx txs).registry
  unfolding insert
  insert-Beside now k j tx txs h = elim (Option-cases (find k txs.inner)) [
    | inl e ↦ rw (e, insert) (find-put_other j k tx txs.inner h, refl)
    | inr (old, e) ↦ elim (Bool-cases (has_expired txs.timeout now old)) [
      | inl x ↦ rw (e, x, insert) (find-put_other j k tx txs.inner h, refl)
      | inr x ↦ rw (e, x, insert) (refl, refl)
    ]
  ]

  pub remove-Beside :
      (now : ℕ) (k j token : Text) (txs : ActiveInterruptibleTransactions W)
      → text_eq k j ≡ false
      → Beside j txs (remove now k token txs).registry
  unfolding remove
  remove-Beside now k j token txs h = elim (Option-cases (find k txs.inner)) [
    | inl e ↦ rw (e, remove) (refl, refl)
    | inr (old, e) ↦ elim (Bool-cases (text_eq old.transaction_id token)) [
      | inl t ↦ elim (Bool-cases (has_expired txs.timeout now old)) [
        | inl x ↦ rw (e, t, x, remove) (find-erase_other j k txs.inner h, refl)
        | inr x ↦ rw (e, t, x, remove) (find-erase_other j k txs.inner h, refl)
      ]
      | inr t ↦ rw (e, t, remove) (refl, refl)
    ]
  ]

  -- While a transaction is held and has not expired, no other takes its path.
  pub insert-occupied :
      (now : ℕ) (k : Text) (tx old : ActiveInterruptibleTransaction W)
      (txs : ActiveInterruptibleTransactions W)
      → find k txs.inner ≡ some old
      → now - old.created_at < txs.timeout
      → (insert now k tx txs).registry ≡ txs
  unfolding insert
  insert-occupied now k tx old txs e young =
      let x : has_expired txs.timeout now old ≡ false = ground arith in rw (e, x, insert) refl

  pub remove-wrong_token :
      (now : ℕ) (k token : Text) (old : ActiveInterruptibleTransaction W)
      (txs : ActiveInterruptibleTransactions W)
      → find k txs.inner ≡ some old
      → text_eq old.transaction_id token ≡ false
      → (remove now k token txs).registry ≡ txs
  unfolding remove
  remove-wrong_token now k token old txs e t = rw (e, t, remove) refl

module _ {W : Type 0} where
  perform-Distinct :
      (call : Call W) (txs : ActiveInterruptibleTransactions W)
      → Distinct txs.inner
      → Distinct (perform call txs).registry.inner
  unfolding perform insert remove abort_all Distinct
  perform-Distinct (call_insert now k tx) txs d = elim (Option-cases (find k txs.inner)) [
    | inl e ↦ rw (e, insert) (put-Distinct k tx txs.inner d)
    | inr (old, e) ↦ elim (Bool-cases (has_expired txs.timeout now old)) [
      | inl x ↦ rw (e, x, insert) (put-Distinct k tx txs.inner d)
      | inr x ↦ rw (e, x, insert) d
    ]
  ]
  perform-Distinct (call_remove now k token) txs d = elim (Option-cases (find k txs.inner)) [
    | inl e ↦ rw (e, remove) d
    | inr (old, e) ↦ elim (Bool-cases (text_eq old.transaction_id token)) [
      | inl t ↦ elim (Bool-cases (has_expired txs.timeout now old)) [
        | inl x ↦ rw (e, t, x, remove) (erase-Distinct k txs.inner d)
        | inr x ↦ rw (e, t, x, remove) (erase-Distinct k txs.inner d)
      ]
      | inr t ↦ rw (e, t, remove) d
    ]
  ]
  perform-Distinct (call_abort_all now) txs d = tt

  -- Over any history of calls, the registry holds at most one transaction per path, if it does so at
  -- the start.
  run-Distinct :
      (calls : List (Call W)) (txs : ActiveInterruptibleTransactions W)
      → Distinct txs.inner
      → Distinct (run calls txs).registry.inner
  unfolding run
  run-Distinct [] txs d = d
  run-Distinct (call ∷ calls) txs d =
      run-Distinct calls (perform call txs).registry (perform-Distinct call txs d)
