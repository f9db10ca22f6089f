-- ===== src/Toolkit/Transactions.antt =====
-- crates/sqlx-sqlite-toolkit/src/transactions.rs: a transaction that holds its writer between
-- calls, and the registry of such transactions. `W` is a writer with what SQLite keeps for it, `V` a
-- value and `R` the result of a statement; a time is the number of ticks that `Instant::now` has
-- counted. What goes out of scope is returned: a transaction that is dropped with its writer, or a
-- writer that is dropped, is rolled back by SQLite if it is still open.
pub mod Registry
pub mod Regular
pub mod Ledger
pub mod Deadline
mod Tests
use tauri_plugin_sqlite.Prelude.{
  ℕ, ◌-◌, Bool, true, false, not, List, [], ◌∷◌, ◌++◌, map, Option, none, some, Text, codes,
  text_eq, Map, find, put, erase, leb, if◌then◌else◌, Result, ok, err, ◌>>=◌, ◌>>◌, map_err, ok_or,
}
use tauri_plugin_sqlite.Toolkit.{
  Error, transaction_already_finalized, transaction_already_active, no_active_transaction,
  invalid_transaction_token, transaction_timed_out,
}
use tauri_plugin_sqlite.Toolkit.Row.{Row}

-- `TransactionWriter`, whose calls go to SQLite: each returns the writer as SQLite leaves it.
pub record TransactionWriter (W V R : Type 0) : Type 0 where
  pub execute_query : W → Text → List V → Result Error R × W
  pub fetch_all : W → Text → List V → Result Error (List (Row V)) × W
  pub detach_if_attached : W → Result Error (Unit {0})

pub record Statement (V : Type 0) : Type 0 where
  pub query : Text
  pub values : List V

pub record ActiveInterruptibleTransaction (W : Type 0) : Type 0 where
  pub db_path : Text
  pub transaction_id : Text
  pub writer : Option W
  pub created_at : ℕ

-- `ActiveInterruptibleTransaction::new`
abbrev pub new_transaction : {W : Type 0} → ℕ → Text → Text → W → ActiveInterruptibleTransaction W
new_transaction now db_path transaction_id writer = record {
  db_path = db_path;
  transaction_id = transaction_id;
  writer = some writer;
  created_at = now;
}

module _ {W V R : Type 0} (sql : TransactionWriter W V R) where
  -- The loop of `continue_with`: the results up to the first error.
  unfoldable pub execute_all : W → List (Statement V) → Result Error (List R) × W
  execute_all w [] = (ok [], w)
  execute_all w (statement ∷ statements) =
      let done = sql.execute_query w statement.query statement.values in
      let rest = execute_all done.1 statements in
      elim done.0 [
        | err e ↦ (err e, done.1)
        | ok r ↦ (rest.0 >>= λ results. ok (r ∷ results), rest.1)
      ]

  unfoldable pub continue_with :
      ActiveInterruptibleTransaction W
      → List (Statement V)
      → Result Error (List R) × ActiveInterruptibleTransaction W
  unfolding execute_all
  continue_with tx statements = elim tx.writer [
    | none ↦ (err transaction_already_finalized, tx)
    | some w ↦ let done = execute_all w statements in (done.0, record tx { writer = some done.1 })
  ]

  unfoldable pub read :
      ActiveInterruptibleTransaction W
      → Text
      → List V
      → Result Error (List (Row V)) × ActiveInterruptibleTransaction W
  read tx query values = elim tx.writer [
    | none ↦ (err transaction_already_finalized, tx)
    | some w ↦
        let done = sql.fetch_all w query values in (done.0, record tx { writer = some done.1 })
  ]

  -- The result, and the writers that are dropped.
  unfoldable pub commit : ActiveInterruptibleTransaction W → Result Error (Unit {0}) × List W
  commit tx = elim tx.writer [
    | none ↦ (err transaction_already_finalized, [])
    | some w ↦
        let done = sql.execute_query w (codes "COMMIT") [] in
        elim done.0 [
          | err e ↦ (err e, done.1 ∷ [])
          | ok r ↦ (sql.detach_if_attached done.1, done.1 ∷ [])
        ]
  ]

  -- An error of detaching is only logged.
  unfoldable pub rollback : ActiveInterruptibleTransaction W → Result Error (Unit {0}) × List W
  rollback tx = elim tx.writer [
    | none ↦ (err transaction_already_finalized, [])
    | some w ↦
        let done = sql.execute_query w (codes "ROLLBACK") [] in
        elim done.0 [ err e ↦ (err e, done.1 ∷ []) | ok r ↦ (ok tt, done.1 ∷ []) ]
  ]

pub record ActiveInterruptibleTransactions (W : Type 0) : Type 0 where
  pub inner : Map (ActiveInterruptibleTransaction W)
  pub timeout : ℕ

-- What a call on the registry does: its result, the registry behind it, and what it drops.
pub record Outcome (W A : Type 0) : Type 0 where
  pub result : Result Error A
  pub registry : ActiveInterruptibleTransactions W
  pub dropped : List (ActiveInterruptibleTransaction W)

module _ {W : Type 0} where
  -- `tx.created_at.elapsed() >= self.timeout`; `elapsed` is zero for a time ahead.
  abbrev pub has_expired : ℕ → ℕ → ActiveInterruptibleTransaction W → Bool
  has_expired timeout now tx = leb timeout (now - tx.created_at)

  unfoldable pub insert :
      ℕ
      → Text
      → ActiveInterruptibleTransaction W
      → ActiveInterruptibleTransactions W
      → Outcome W (Unit {0})
  insert now db_path tx txs = elim (find db_path txs.inner) [
    | none ↦ record {
      result = ok tt;
      registry = record txs { inner = put db_path tx txs.inner };
      dropped = [];
    }
    | some old ↦
        if has_expired txs.timeout now old
        then record {
          result = ok tt;
          registry = record txs { inner = put db_path tx txs.inner };
          dropped = old ∷ [];
        }
        else record {
          result = err (transaction_already_active db_path);
          registry = txs;
          dropped = tx ∷ [];
        }
  ]

  unfoldable pub remove :
      ℕ
      → Text
      → Text
      → ActiveInterruptibleTransactions W
      → Outcome W (ActiveInterruptibleTransaction W)
  remove now db_path token_id txs = elim (find db_path txs.inner) [
    | none ↦ record { result = err (no_active_transaction db_path); registry = txs; dropped = [] }
    | some tx ↦
        if not (text_eq tx.transaction_id token_id)
        then record { result = err invalid_transaction_token; registry = txs; dropped = [] }
        else if has_expired txs.timeout now tx
        then record {
          result = err (transaction_timed_out db_path);
          registry = record txs { inner = erase db_path txs.inner };
          dropped = tx ∷ [];
        }
        else record {
          result = ok tx;
          registry = record txs { inner = erase db_path txs.inner };
          dropped = [];
        }
  ]

  -- The transactions of a map.
  unfoldable pub held :
      Map (ActiveInterruptibleTransaction W) → List (ActiveInterruptibleTransaction W)
  held [] = []
  held ((k, tx) ∷ m) = tx ∷ held m

  unfoldable pub abort_all : ActiveInterruptibleTransactions W → Outcome W (Unit {0})
  unfolding held
  abort_all txs = record {
    result = ok tt;
    registry = record txs { inner = [] };
    dropped = held txs.inner;
  }

-- A call on the registry, with the time at which it holds the lock. Calls of different tasks are
-- interleaved, but each runs under the lock.
pub data Call (W : Type 0) : Type 0 where
  call_insert : ℕ → Text → ActiveInterruptibleTransaction W → Call W
  call_remove : ℕ → Text → Text → Call W
  call_abort_all : ℕ → Call W

-- What a history of calls has done.
pub record History (W : Type 0) : Type 0 where
  pub registry : ActiveInterruptibleTransactions W
  pub given : List (ActiveInterruptibleTransaction W)
  pub returned : List (ActiveInterruptibleTransaction W)
  pub dropped : List (ActiveInterruptibleTransaction W)

module _ {W : Type 0} where
  abbrev pub returned_of :
      Result Error (ActiveInterruptibleTransaction W) → List (ActiveInterruptibleTransaction W)
  returned_of (ok tx) = tx ∷ []
  returned_of (err e) = []

  unfoldable pub perform : Call W → ActiveInterruptibleTransactions W → History W
  unfolding insert remove abort_all
  perform (call_insert now db_path tx) txs =
      let out = insert now db_path tx txs in
      record { registry = out.registry; given = tx ∷ []; returned = []; dropped = out.dropped }
  perform (call_remove now db_path token_id) txs =
      let out = remove now db_path token_id txs in
      record {
        registry = out.registry;
        given = [];
        returned = returned_of out.result;
        dropped = out.dropped;
      }
  perform (call_abort_all now) txs =
      let out = abort_all txs in
      record { registry = out.registry; given = []; returned = []; dropped = out.dropped }

  unfoldable pub run : List (Call W) → ActiveInterruptibleTransactions W → History W
  unfolding perform
  run [] txs = record { registry = txs; given = []; returned = []; dropped = [] }
  run (call ∷ calls) txs =
      let one = perform call txs in
      let rest = run calls one.registry in
      record {
        registry = rest.registry;
        given = one.given ++ rest.given;
        returned = one.returned ++ rest.returned;
        dropped = one.dropped ++ rest.dropped;
      }
