-- ===== src/Toolkit/Transactions/Deadline.antt =====
-- A transaction stays with the registry for its token, whatever else is called, until it times out.
use tauri_plugin_sqlite.Prelude.{
  ℕ, ◌-◌, ◌<◌, ◌≡◌, refl, ap, ◌∙◌, inl, inr, Bool, true, false, not, ◌&&◌, List, [], ◌∷◌, some,
  arith, Text, text_eq, text_eq_refl, text_eq→≡, find, find-put, ltb, ok, err, Bool-cases,
  Option-cases, all,
}
use tauri_plugin_sqlite.Toolkit.{transaction_already_active}
use tauri_plugin_sqlite.Toolkit.Transactions.{
  ActiveInterruptibleTransaction, ActiveInterruptibleTransactions, has_expired, Call, call_insert,
  call_remove, call_abort_all, insert, remove, perform, run,
}
use tauri_plugin_sqlite.Toolkit.Transactions.Registry.{
  remove-ok, insert-Beside, remove-Beside, insert-occupied, remove-wrong_token,
}

module _ {W : Type 0} (k : Text) (tx : ActiveInterruptibleTransaction W) where
  -- The call comes before the timeout, shows another path or token, and is not `abort_all`.
  unfoldable pub spares : ℕ → Call W → Bool
  spares timeout (call_insert now path other) = ltb (now - tx.created_at) timeout
  spares timeout (call_remove now path token) =
      ltb (now - tx.created_at) timeout && not (text_eq path k && text_eq tx.transaction_id token)
  spares timeout (call_abort_all now) = false

  -- The transaction is at its path, and the timeout is this one.
  abbrev Holds : ℕ → ActiveInterruptibleTransactions W → Type 0
  Holds timeout txs = (find k txs.inner ≡ some tx) × (txs.timeout ≡ timeout)

  perform-Holds :
      (timeout : ℕ) (call : Call W) (txs : ActiveInterruptibleTransactions W)
      → Holds timeout txs
      → spares timeout call ≡ true
      → Holds timeout (perform call txs).registry
  unfolding perform spares
  perform-Holds timeout (call_insert now path other) txs (e, same) s =
      elim (Bool-cases (text_eq path k)) [
        | inl p ↦
            let here = text_eq→≡ path k p in
            rw
              (insert-occupied now path other tx txs (ap (λ q. find q txs.inner) here ∙ e)
                (ground arith))
              (e, same)
        | inr p ↦ let (f, t) = insert-Beside now path k other txs p in (f ∙ e, t ∙ same)
      ]
  perform-Holds timeout (call_remove now path token) txs (e, same) s =
      elim (Bool-cases (text_eq path k)) [
        | inl p ↦
            let here = text_eq→≡ path k p in
            rw
              (remove-wrong_token now path token tx txs (ap (λ q. find q txs.inner) here ∙ e)
                (ground arith))
              (e, same)
        | inr p ↦ let (f, t) = remove-Beside now path k token txs p in (f ∙ e, t ∙ same)
      ]
  perform-Holds timeout (call_abort_all now) txs h s = cc

  run-Holds :
      (timeout : ℕ) (calls : List (Call W)) (txs : ActiveInterruptibleTransactions W)
      → Holds timeout txs
      → all (spares timeout) calls ≡ true
      → Holds timeout (run calls txs).registry
  unfolding run
  run-Holds timeout [] txs h s = h
  run-Holds timeout (call ∷ calls) txs h s =
      run-Holds timeout calls (perform call txs).registry
        (perform-Holds timeout call txs h (ground arith)) (ground arith)

insert-Holds :
    {W : Type 0} (start : ℕ) (k : Text) (tx : ActiveInterruptibleTransaction W)
    (txs : ActiveInterruptibleTransactions W)
    → (insert start k tx txs).result ≡ ok tt
    → Holds k tx txs.timeout (insert start k tx txs).registry
unfolding insert
insert-Holds start k tx txs h = elim (Option-cases (find k txs.inner)) [
  | inl e ↦ rw (e, insert) (find-put k tx txs.inner, refl)
  | inr (old, e) ↦ elim (Bool-cases (has_expired txs.timeout start old)) [
    | inl x ↦ rw (e, x, insert) (find-put k tx txs.inner, refl)
    | inr x ↦ absurd (
        let r : (insert start k tx txs).result ≡ err (transaction_already_active k) =
          rw (e, x, insert) refl in
        cc)
  ]
]

-- A transaction that `insert` has accepted is given out to its token, whatever other calls come in
-- between, in any order: inserts at any path, and removes with another path or another token, all
-- before the transaction times out, as the last one, and none of them `abort_all`.
pub remove-insert :
    {W : Type 0} (start now : ℕ) (k : Text) (tx : ActiveInterruptibleTransaction W)
    (txs : ActiveInterruptibleTransactions W) (calls : List (Call W))
    → (insert start k tx txs).result ≡ ok tt
    → all (spares k tx txs.timeout) calls ≡ true
    → now - tx.created_at < txs.timeout
    → (remove now k tx.transaction_id (run calls (insert start k tx txs).registry).registry).result
      ≡ ok tx
remove-insert start now k tx txs calls accepted spared young =
    let first = (insert start k tx txs).registry in
    let (e, same) =
      run-Holds k tx txs.timeout calls first (insert-Holds start k tx txs accepted) spared in
    remove-ok now k tx.transaction_id (run calls first).registry tx
      (e, text_eq_refl tx.transaction_id, omega arith)
