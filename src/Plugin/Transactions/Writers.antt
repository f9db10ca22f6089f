-- ===== src/Plugin/Transactions/Writers.antt =====
-- No command keeps a writer to itself: what it takes from the pool or from the registry is held or
-- released when it returns, whichever statement fails.
use tauri_plugin_sqlite.Prelude.{
  ℕ, ◌+◌, ◌≡◌, refl, ap, ◌∙◌, inl, inr, Bool, true, false, List, [], ◌∷◌, Option, none, some, arith,
  Text, codes, length, Result, ok, err, Result-cases, Option-cases, subst,
}
use tauri_plugin_sqlite.Toolkit.{Error}
use tauri_plugin_sqlite.Toolkit.Row.{Row}
use tauri_plugin_sqlite.Toolkit.Transactions.{
  TransactionWriter, Statement, ActiveInterruptibleTransaction, ActiveInterruptibleTransactions,
  Outcome, new_transaction, continue_with, read, commit, rollback, insert, remove, held, perform,
  call_insert, call_remove, returned_of,
}
use tauri_plugin_sqlite.Toolkit.Transactions.Ledger.{one_if, count, perform-Balances}
use tauri_plugin_sqlite.Toolkit.Transactions.Registry.{remove-ok_drops}
use tauri_plugin_sqlite.Plugin.{PluginError}
use tauri_plugin_sqlite.Plugin.Transactions.{
  TransactionToken, TransactionAction, do_continue, do_commit, do_rollback, Reply, writers_of,
  put_back, give_up, continue_taken, with_taken, transaction_continue, read_taken, transaction_read,
  begin_with, begin_interruptible_transaction,
}

abbrev pub is_open : {W : Type 0} → ActiveInterruptibleTransaction W → Bool
is_open tx = elim tx.writer [ none ↦ false | some w ↦ true ]

-- The writers that the registry holds.
abbrev pub writers_held : {W : Type 0} → ActiveInterruptibleTransactions W → ℕ
writers_held txs = count is_open (held txs.inner)

pub length-writers_of :
    {W : Type 0} (txs : List (ActiveInterruptibleTransaction W))
    → length (writers_of txs) ≡ count is_open txs
unfolding writers_of count
length-writers_of [] = refl
length-writers_of (tx ∷ txs) = elim (Option-cases tx.writer) [
  | inl e ↦ rw e (let rest = length-writers_of txs in omega arith)
  | inr (w, e) ↦ rw e (let rest = length-writers_of txs in omega arith)
]

-- `n` writers go in beside those that are held.
abbrev pub Keeps : {W A : Type 0} → ℕ → ActiveInterruptibleTransactions W → Reply W A → Type 0
Keeps n txs reply = writers_held reply.registry + length reply.released ≡ writers_held txs + n

put_back-Keeps :
    {W A : Type 0} (later : ℕ) (k : Text) (tx : ActiveInterruptibleTransaction W) (reply : A)
    (txs : ActiveInterruptibleTransactions W)
    → Keeps (one_if (is_open tx)) txs (put_back later k tx reply txs)
unfolding put_back perform count
put_back-Keeps later k tx reply txs =
    let balance = perform-Balances is_open (call_insert later k tx) txs in
    let dropped = length-writers_of (insert later k tx txs).dropped in omega arith

module _ {W V R : Type 0} (sql : TransactionWriter W V R) where
  rollback-releases :
      (tx : ActiveInterruptibleTransaction W) → length (rollback sql tx).1 ≡ one_if (is_open tx)
  unfolding rollback
  rollback-releases tx = elim (Option-cases tx.writer) [
    | inl e ↦ rw (e, rollback) refl
    | inr (w, e) ↦ elim (Result-cases (sql.execute_query w (codes "ROLLBACK") []).0) [
      | inl (r, f) ↦ rw (e, f, rollback) refl
      | inr (x, f) ↦ rw (e, f, rollback) refl
    ]
  ]

  commit-releases :
      (tx : ActiveInterruptibleTransaction W) → length (commit sql tx).1 ≡ one_if (is_open tx)
  unfolding commit
  commit-releases tx = elim (Option-cases tx.writer) [
    | inl e ↦ rw (e, commit) refl
    | inr (w, e) ↦ elim (Result-cases (sql.execute_query w (codes "COMMIT") []).0) [
      | inl (r, f) ↦ rw (e, f, commit) refl
      | inr (x, f) ↦ rw (e, f, commit) refl
    ]
  ]

  continue_with-is_open :
      (tx : ActiveInterruptibleTransaction W) (statements : List (Statement V))
      → is_open (continue_with sql tx statements).1 ≡ is_open tx
  unfolding continue_with
  continue_with-is_open tx statements = elim (Option-cases tx.writer) [
    | inl e ↦ rw (e, continue_with) (rw e refl)
    | inr (w, e) ↦ rw (e, continue_with) refl
  ]

  read-is_open :
      (tx : ActiveInterruptibleTransaction W) (query : Text) (values : List V)
      → is_open (read sql tx query values).1 ≡ is_open tx
  unfolding read
  read-is_open tx query values = elim (Option-cases tx.writer) [
    | inl e ↦ rw (e, read) (rw e refl)
    | inr (w, e) ↦ rw (e, read) refl
  ]

  give_up-Keeps :
      (A : Type 0) (e : Error) (tx : ActiveInterruptibleTransaction W)
      (txs : ActiveInterruptibleTransactions W)
      → Keeps (one_if (is_open tx)) txs (give_up sql {A = A} e tx txs)
  unfolding give_up
  give_up-Keeps A e tx txs = ap (λ n. writers_held txs + n) (rollback-releases tx)

  continue_taken-Keeps :
      (later : ℕ) (token : TransactionToken) (action : TransactionAction V)
      (tx : ActiveInterruptibleTransaction W) (txs : ActiveInterruptibleTransactions W)
      → Keeps (one_if (is_open tx)) txs (continue_taken sql later token action tx txs)
  unfolding continue_taken
  continue_taken-Keeps later token (do_continue statements) tx txs =
      let done = continue_with sql tx statements in
      let open_still = continue_with-is_open tx statements in
      elim (Result-cases done.0) [
        | inl (results, e) ↦
            rw (e, continue_taken, ← open_still)
              (put_back-Keeps later token.db_path done.1 (some token) txs)
        | inr (x, e) ↦
            rw (e, continue_taken, ← open_still)
              (give_up-Keeps (Option TransactionToken) x done.1 txs)
      ]
  continue_taken-Keeps later token do_commit tx txs =
      ap (λ n. writers_held txs + n) (commit-releases tx)
  continue_taken-Keeps later token do_rollback tx txs =
      ap (λ n. writers_held txs + n) (rollback-releases tx)

  read_taken-Keeps :
      (later : ℕ) (token : TransactionToken) (query : Text) (values : List V)
      (tx : ActiveInterruptibleTransaction W) (txs : ActiveInterruptibleTransactions W)
      → Keeps (one_if (is_open tx)) txs (read_taken sql later token query values tx txs)
  unfolding read_taken
  read_taken-Keeps later token query values tx txs =
      let done = read sql tx query values in
      let open_still = read-is_open tx query values in
      elim (Result-cases done.0) [
        | inl (results, e) ↦
            rw (e, read_taken, ← open_still) (put_back-Keeps later token.db_path done.1 results txs)
        | inr (x, e) ↦ rw (e, read_taken, ← open_still) (give_up-Keeps (List (Row V)) x done.1 txs)
      ]

  with_taken-Keeps :
      {A : Type 0} (out : Outcome W (ActiveInterruptibleTransaction W))
      (txs : ActiveInterruptibleTransactions W)
      (go : ActiveInterruptibleTransaction W → ActiveInterruptibleTransactions W → Reply W A)
      → writers_held out.registry
          + (count is_open (returned_of out.result) + count is_open out.dropped)
        ≡ writers_held txs + 0
      → ((tx : ActiveInterruptibleTransaction W) → out.result ≡ ok tx → out.dropped ≡ [])
      → ((tx : ActiveInterruptibleTransaction W) (rest : ActiveInterruptibleTransactions W)
          → Keeps (one_if (is_open tx)) rest (go tx rest))
      → Keeps 0 txs (with_taken sql out go)
  unfolding with_taken count
  with_taken-Keeps out txs go balance clean kept = elim (Result-cases out.result) [
    | inl (tx, e) ↦
        let held_on : writers_held out.registry + (one_if (is_open tx) + 0 + 0)
            ≡ writers_held txs + 0 =
          subst
            (λ d.
              writers_held out.registry + (one_if (is_open tx) + 0 + count is_open d)
              ≡ writers_held txs + 0)
            (clean tx e)
            (subst
              (λ r.
                writers_held out.registry
                  + (count is_open (returned_of r) + count is_open out.dropped)
                ≡ writers_held txs + 0)
              e balance) in
        let after = kept tx out.registry in rw (e, with_taken) (omega arith)
    | inr (x, e) ↦
        let dropped = length-writers_of out.dropped in
        let held_on : writers_held out.registry + (0 + count is_open out.dropped)
            ≡ writers_held txs + 0 =
          subst
            (λ r.
              writers_held out.registry
                + (count is_open (returned_of r) + count is_open out.dropped)
              ≡ writers_held txs + 0)
            e balance in
        rw (e, with_taken) (omega arith)
  ]

  pub transaction_continue-Keeps :
      (now later : ℕ) (token : TransactionToken) (action : TransactionAction V)
      (txs : ActiveInterruptibleTransactions W)
      → Keeps 0 txs (transaction_continue sql now later token action txs)
  unfolding transaction_continue perform count
  transaction_continue-Keeps now later token action txs =
      with_taken-Keeps (remove now token.db_path token.transaction_id txs) txs
        (continue_taken sql later token action)
        (perform-Balances is_open (call_remove now token.db_path token.transaction_id) txs)
        (remove-ok_drops now token.db_path token.transaction_id txs)
        (continue_taken-Keeps later token action)

  pub transaction_read-Keeps :
      (now later : ℕ) (token : TransactionToken) (query : Text) (values : List V)
      (txs : ActiveInterruptibleTransactions W)
      → Keeps 0 txs (transaction_read sql now later token query values txs)
  unfolding transaction_read perform count
  transaction_read-Keeps now later token query values txs =
      with_taken-Keeps (remove now token.db_path token.transaction_id txs) txs
        (read_taken sql later token query values)
        (perform-Balances is_open (call_remove now token.db_path token.transaction_id) txs)
        (remove-ok_drops now token.db_path token.transaction_id txs)
        (read_taken-Keeps later token query values)

  begin_with-Keeps :
      (now later : ℕ) (db id : Text) (statements : List (Statement V)) (w : W)
      (txs : ActiveInterruptibleTransactions W)
      → Keeps 1 txs (begin_with sql now later db id statements w txs)
  unfolding begin_with count
  begin_with-Keeps now later db id statements w txs =
      let begun = sql.execute_query w (codes "BEGIN IMMEDIATE") [] in
      let active_tx = new_transaction now db id begun.1 in
      let done = continue_with sql active_tx statements in
      let token : TransactionToken = record { db_path = db; transaction_id = id } in
      let open_still = continue_with-is_open active_tx statements in
      elim (Result-cases begun.0) [
        | inr (x, e) ↦ rw (e, begin_with) refl
        | inl (r, e) ↦ elim (Result-cases done.0) [
          | inr (x, f) ↦
              rw (e, f, begin_with)
                (ap (λ n. writers_held txs + n)
                  (length-writers_of (done.1 ∷ []) ∙ ap (λ b. one_if b + 0) open_still))
          | inl (results, f) ↦
              rw (e, f, begin_with)
                (subst (λ b. Keeps (one_if b) txs (put_back later db done.1 token txs)) open_still
                  (put_back-Keeps later db done.1 token txs))
        ]
      ]

  -- A writer comes from the pool where the database is loaded and the pool gives one.
  abbrev pub acquired_by : Bool → Result PluginError W → ℕ
  acquired_by false acquired = 0
  acquired_by true (ok w) = 1
  acquired_by true (err e) = 0

  pub begin_interruptible_transaction-Keeps :
      (now later : ℕ) (is_loaded : Bool) (acquired : Result PluginError W) (db id : Text)
      (statements : List (Statement V)) (txs : ActiveInterruptibleTransactions W)
      → Keeps
          (acquired_by is_loaded acquired)
          txs
          (begin_interruptible_transaction sql now later is_loaded acquired db id statements txs)
  unfolding begin_interruptible_transaction
  begin_interruptible_transaction-Keeps now later false acquired db id statements txs = refl
  begin_interruptible_transaction-Keeps now later true (err e) db id statements txs = refl
  begin_interruptible_transaction-Keeps now later true (ok w) db id statements txs =
      begin_with-Keeps now later db id statements w txs
