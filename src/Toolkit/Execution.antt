-- ===== src/Toolkit/Execution.antt =====
-- crates/sqlx-sqlite-toolkit/src/wrapper.rs: a transaction that is executed at once, and the start of
-- one that is continued later. `acquired` is the writer, with or without attached databases.
pub mod Atomic
mod Tests
use tauri_plugin_sqlite.Prelude.{ℕ, List, [], ◌∷◌, Text, codes, Result, ok, err, ◌>>=◌}
use tauri_plugin_sqlite.Toolkit.{Error}
use tauri_plugin_sqlite.Toolkit.Transactions.{
  TransactionWriter, Statement, ActiveInterruptibleTransaction, new_transaction, execute_all,
  continue_with,
}

module _ {W V R : Type 0} (sql : TransactionWriter W V R) where
  -- `TransactionWriter::begin_immediate`
  abbrev pub begin_immediate : W → Result Error R × W
  begin_immediate w = sql.execute_query w (codes "BEGIN IMMEDIATE") []

  -- The end of `TransactionExecutionBuilder::execute`: commit or rollback. An error of detaching
  -- after a rollback is only logged.
  unfoldable pub commit_or_rollback : Result Error (List R) × W → Result Error (List R) × List W
  commit_or_rollback ran = elim ran.0 [
    | ok results ↦
        let done = sql.execute_query ran.1 (codes "COMMIT") [] in
        elim done.0 [
          | err e ↦ (err e, done.1 ∷ [])
          | ok _ ↦ (sql.detach_if_attached done.1 >>= λ _. ok results, done.1 ∷ [])
        ]
    | err e ↦
        let done = sql.execute_query ran.1 (codes "ROLLBACK") [] in
        elim done.0 [ err f ↦ (err f, done.1 ∷ []) | ok _ ↦ (err e, done.1 ∷ []) ]
  ]

  -- `TransactionExecutionBuilder::execute`: the result, and the writers that are dropped.
  unfoldable pub execute_transaction :
      Result Error W → List (Statement V) → Result Error (List R) × List W
  execute_transaction acquired statements = elim acquired [
    | err e ↦ (err e, [])
    | ok w ↦
        let begun = begin_immediate w in
        elim begun.0 [
          | err e ↦ (err e, begun.1 ∷ [])
          | ok _ ↦ commit_or_rollback (execute_all sql begun.1 statements)
        ]
  ]

  -- `InterruptibleTransactionBuilder::execute`, with the new transaction, or the one that an error
  -- drops.
  unfoldable pub execute_interruptible :
      ℕ
      → Text
      → Result Error W
      → List (Statement V)
      → Result Error (ActiveInterruptibleTransaction W)
        × List W
        × List (ActiveInterruptibleTransaction W)
  execute_interruptible now transaction_id acquired initial_statements = elim acquired [
    | err e ↦ (err e, [], [])
    | ok w ↦
        let begun = begin_immediate w in
        let tx = new_transaction now (codes "direct_rust_api") transaction_id begun.1 in
        let ran = continue_with sql tx initial_statements in
        elim begun.0 [
          | err e ↦ (err e, begun.1 ∷ [], [])
          | ok _ ↦ elim ran.0 [ err e ↦ (err e, [], ran.1 ∷ []) | ok _ ↦ (ok ran.1, [], []) ]
        ]
  ]
