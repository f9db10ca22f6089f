-- ===== src/Toolkit/Transactions/Ledger.antt =====
-- No transaction is lost or used twice: each that is handed to the registry is held, returned or
-- dropped, and so rolled back, as often as it was handed over.
use tauri_plugin_sqlite.Prelude.{
  ℕ, ◌+◌, ◌≡◌, refl, ap, inl, inr, Bool, true, false, List, [], ◌∷◌, ◌++◌, none, some, arith, Text,
  text_eq, Map, find, put, erase, Bool-cases, Option-cases, find-head,
}
use tauri_plugin_sqlite.Toolkit.Transactions.{
  ActiveInterruptibleTransaction, ActiveInterruptibleTransactions, has_expired, Call, call_insert,
  call_remove, call_abort_all, History, held, insert, remove, abort_all, perform, run,
}

abbrev pub one_if : Bool → ℕ
one_if true = 1
one_if false = 0

-- The number of items that satisfy the test.
unfoldable pub count : {A : Type 0} → (A → Bool) → List A → ℕ
count p [] = 0
count p (x ∷ xs) = one_if (p x) + count p xs

pub count-append :
    {A : Type 0} (p : A → Bool) (xs ys : List A) → count p (xs ++ ys) ≡ count p xs + count p ys
unfolding count
count-append p [] ys = omega arith
count-append p (x ∷ xs) ys = let rest = count-append p xs ys in omega arith

module _ {W : Type 0} (p : ActiveInterruptibleTransaction W → Bool) where
  count-put_new :
      (k : Text) (tx : ActiveInterruptibleTransaction W)
      (m : Map (ActiveInterruptibleTransaction W))
      → find k m ≡ none
      → count p (held (put k tx m)) ≡ one_if (p tx) + count p (held m)
  unfolding count held find put
  count-put_new k tx [] h = refl
  count-put_new k tx ((l, old) ∷ m) h = elim (Bool-cases (text_eq l k)) [
    | inl e ↦ cc
    | inr e ↦ rw e (let rest = count-put_new k tx m (ground arith) in omega arith)
  ]

  count-put_old :
      (k : Text) (tx old : ActiveInterruptibleTransaction W)
      (m : Map (ActiveInterruptibleTransaction W))
      → find k m ≡ some old
      → count p (held (put k tx m)) + one_if (p old) ≡ one_if (p tx) + count p (held m)
  unfolding count held find put
  count-put_old k tx old [] h = cc
  count-put_old k tx old ((l, here) ∷ m) h = elim (Bool-cases (text_eq l k)) [
    | inl e ↦
        let same : p here ≡ p old = ap p (find-head k l here old m e h) in
        rw (e, same) (omega arith)
    | inr e ↦ rw e (let rest = count-put_old k tx old m (ground arith) in omega arith)
  ]

  count-erase :
      (k : Text) (old : ActiveInterruptibleTransaction W)
      (m : Map (ActiveInterruptibleTransaction W))
      → find k m ≡ some old
      → count p (held (erase k m)) + one_if (p old) ≡ count p (held m)
  unfolding count held find erase
  count-erase k old [] h = cc
  count-erase k old ((l, here) ∷ m) h = elim (Bool-cases (text_eq l k)) [
    | inl e ↦
        let same : p here ≡ p old = ap p (find-head k l here old m e h) in
        rw (e, same) (omega arith)
    | inr e ↦ rw e (let rest = count-erase k old m (ground arith) in omega arith)
  ]

  abbrev pub Balances : ActiveInterruptibleTransactions W → History W → Type 0
  Balances txs h =
      count p (held h.registry.inner) + (count p h.returned + count p h.dropped)
      ≡ count p (held txs.inner) + count p h.given

  pub perform-Balances :
      (call : Call W) (txs : ActiveInterruptibleTransactions W) → Balances txs (perform call txs)
  unfolding perform insert remove abort_all count held
  perform-Balances (call_insert now k tx) txs = elim (Option-cases (find k txs.inner)) [
    | inl e ↦ rw (e, insert) (let more = count-put_new k tx txs.inner e in omega arith)
    | inr (old, e) ↦ elim (Bool-cases (has_expired txs.timeout now old)) [
      | inl x ↦ rw (e, x, insert) (let more = count-put_old k tx old txs.inner e in omega arith)
      | inr x ↦ rw (e, x, insert) (omega arith)
    ]
  ]
  perform-Balances (call_remove now k token) txs = elim (Option-cases (find k txs.inner)) [
    | inl e ↦ rw (e, remove) (omega arith)
    | inr (old, e) ↦ elim (Bool-cases (text_eq old.transaction_id token)) [
      | inl t ↦ elim (Bool-cases (has_expired txs.timeout now old)) [
        | inl x ↦ rw (e, t, x, remove) (let less = count-erase k old txs.inner e in omega arith)
        | inr x ↦ rw (e, t, x, remove) (let less = count-erase k old txs.inner e in omega arith)
      ]
      | inr t ↦ rw (e, t, remove) (omega arith)
    ]
  ]
  perform-Balances (call_abort_all now) txs = omega arith

  -- Over any history of calls on the registry, each transaction (and so every kind of them) that was
  -- held at the start or handed over is at the end held, returned or dropped exactly as often: none
  -- is lost with its writer, and none is given out twice.
  run-Balances :
      (calls : List (Call W)) (txs : ActiveInterruptibleTransactions W)
      → count p (held (run calls txs).registry.inner)
          + (count p (run calls txs).returned + count p (run calls txs).dropped)
        ≡ count p (held txs.inner) + count p (run calls txs).given
  unfolding run count
  run-Balances [] txs = omega arith
  run-Balances (call ∷ calls) txs =
      let one = perform call txs in
      let rest = run calls one.registry in
      let here = perform-Balances call txs in
      let there = run-Balances calls one.registry in
      let given = count-append p one.given rest.given in
      let returned = count-append p one.returned rest.returned in
      let dropped = count-append p one.dropped rest.dropped in omega arith
