-- ===== src/Plugin/Transactions.antt =====
-- src/commands.rs: the commands on interruptible transactions. A command takes the registry and
-- returns it with the writers that it lets go of. `now` is the time at which the registry is asked
-- for the transaction and `later` that at which it takes it back.
pub mod Writers
pub mod Settled
pub mod Histories
mod Tests
use tauri_plugin_sqlite.Prelude.{
  ℕ, Bool, true, false, List, [], ◌∷◌, ◌++◌, Option, none, some, Text, codes, if◌then◌else◌, Result,
  ok, err, map_err,
}
use tauri_plugin_sqlite.Toolkit.{Error}
use tauri_plugin_sqlite.Toolkit.Row.{Row}
use tauri_plugin_sqlite.Toolkit.Transactions.{
  TransactionWriter, Statement, ActiveInterruptibleTransaction, ActiveInterruptibleTransactions,
  Outcome, new_transaction, continue_with, read, commit, rollback, insert, remove, abort_all,
}
use tauri_plugin_sqlite.Plugin.{PluginError, toolkit, database_not_loaded}

pub record TransactionToken : Type 0 where
  pub db_path : Text
  pub transaction_id : Text

pub data TransactionAction (V : Type 0) : Type 0 where
  do_continue : List (Statement V) → TransactionAction V
  do_commit do_rollback : TransactionAction V

pub record Reply (W A : Type 0) : Type 0 where
  pub result : Result PluginError A
  pub registry : ActiveInterruptibleTransactions W
  pub released : List W

-- Dropping a transaction drops its writer.
unfoldable pub writers_of : {W : Type 0} → List (ActiveInterruptibleTransaction W) → List W
writers_of [] = []
writers_of (tx ∷ txs) = elim tx.writer [ none ↦ writers_of txs | some w ↦ w ∷ writers_of txs ]

module _ {W A : Type 0} where
  -- The transaction goes back into the registry, and the command answers with `reply`.
  unfoldable pub put_back :
      ℕ
      → Text
      → ActiveInterruptibleTransaction W
      → A
      → ActiveInterruptibleTransactions W
      → Reply W A
  unfolding writers_of
  put_back later db_path tx reply txs =
      let out = insert later db_path tx txs in
      record {
        result = elim out.result [ ok u ↦ ok reply | err e ↦ err (toolkit e) ];
        registry = out.registry;
        released = writers_of out.dropped;
      }

module _ {W V R : Type 0} (sql : TransactionWriter W V R) where
  -- Behind an error the transaction is rolled back, and an error of that is passed over.
  unfoldable pub give_up :
      {A : Type 0}
      → Error
      → ActiveInterruptibleTransaction W
      → ActiveInterruptibleTransactions W
      → Reply W A
  give_up e tx txs = record {
    result = err (toolkit e);
    registry = txs;
    released = (rollback sql tx).1;
  }

  unfoldable pub continue_taken :
      ℕ
      → TransactionToken
      → TransactionAction V
      → ActiveInterruptibleTransaction W
      → ActiveInterruptibleTransactions W
      → Reply W (Option TransactionToken)
  unfolding put_back give_up
  continue_taken later token (do_continue statements) tx txs =
      let done = continue_with sql tx statements in
      elim done.0 [
        | ok results ↦ put_back later token.db_path done.1 (some token) txs
        | err e ↦ give_up e done.1 txs
      ]
  continue_taken later token do_commit tx txs =
      let done = commit sql tx in
      record {
        result = elim done.0 [ ok u ↦ ok none | err e ↦ err (toolkit e) ];
        registry = txs;
        released = done.1;
      }
  continue_taken later token do_rollback tx txs =
      let done = rollback sql tx in
      record {
        result = elim done.0 [ ok u ↦ ok none | err e ↦ err (toolkit e) ];
        registry = txs;
        released = done.1;
      }

  -- What a command does first: `active_txs.remove(…).await?`.
  unfoldable pub with_taken :
      {A : Type 0}
      → Outcome W (ActiveInterruptibleTransaction W)
      → (ActiveInterruptibleTransaction W → ActiveInterruptibleTransactions W → Reply W A)
      → Reply W A
  unfolding writers_of
  with_taken out go = elim out.result [
    | ok tx ↦ go tx out.registry
    | err e ↦ record {
      result = err (toolkit e);
      registry = out.registry;
      released = writers_of out.dropped;
    }
  ]

  unfoldable pub transaction_continue :
      ℕ
      → ℕ
      → TransactionToken
      → TransactionAction V
      → ActiveInterruptibleTransactions W
      → Reply W (Option TransactionToken)
  unfolding with_taken continue_taken
  transaction_continue now later token action txs =
      with_taken (remove now token.db_path token.transaction_id txs)
        (continue_taken later token action)

  unfoldable pub read_taken :
      ℕ
      → TransactionToken
      → Text
      → List V
      → ActiveInterruptibleTransaction W
      → ActiveInterruptibleTransactions W
      → Reply W (List (Row V))
  unfolding put_back give_up
  read_taken later token query values tx txs =
      let done = read sql tx query values in
      elim done.0 [
        | ok results ↦ put_back later token.db_path done.1 results txs
        | err e ↦ give_up e done.1 txs
      ]

  unfoldable pub transaction_read :
      ℕ
      → ℕ
      → TransactionToken
      → Text
      → List V
      → ActiveInterruptibleTransactions W
      → Reply W (List (Row V))
  unfolding with_taken read_taken
  transaction_read now later token query values txs =
      with_taken (remove now token.db_path token.transaction_id txs)
        (read_taken later token query values)

  -- From the point where the writer is there.
  unfoldable pub begin_with :
      ℕ
      → ℕ
      → Text
      → Text
      → List (Statement V)
      → W
      → ActiveInterruptibleTransactions W
      → Reply W TransactionToken
  unfolding put_back
  begin_with now later db transaction_id initial_statements w txs =
      let begun = sql.execute_query w (codes "BEGIN IMMEDIATE") [] in
      let active_tx = new_transaction now db transaction_id begun.1 in
      let done = continue_with sql active_tx initial_statements in
      let token : TransactionToken = record { db_path = db; transaction_id = transaction_id } in
      elim begun.0 [
        | err e ↦ record { result = err (toolkit e); registry = txs; released = begun.1 ∷ [] }
        | ok r ↦ elim done.0 [
          | err e ↦ record {
            result = err (toolkit e);
            registry = txs;
            released = writers_of (done.1 ∷ []);
          }
          | ok results ↦ put_back later db done.1 token txs
        ]
      ]

  -- `is_loaded` says whether `db` has an instance, `transaction_id` is the new id, and `acquired`
  -- what acquiring the writer, with attached databases or without, has come to.
  unfoldable pub begin_interruptible_transaction :
      ℕ
      → ℕ
      → Bool
      → Result PluginError W
      → Text
      → Text
      → List (Statement V)
      → ActiveInterruptibleTransactions W
      → Reply W TransactionToken
  unfolding begin_with
  begin_interruptible_transaction now later is_loaded acquired db transaction_id initial_statements
        txs =
      if is_loaded
      then (elim acquired [
        | ok w ↦ begin_with now later db transaction_id initial_statements w txs
        | err e ↦ record { result = err e; registry = txs; released = [] }
      ])
      else record { result = err (database_not_loaded db); registry = txs; released = [] }
