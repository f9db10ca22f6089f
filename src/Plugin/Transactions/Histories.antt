-- ===== src/Plugin/Transactions/Histories.antt =====
-- Sequences of transaction commands, each with what the frontend sends and what the pool gives.
use tauri_plugin_sqlite.Prelude.{
  ℕ, ◌+◌, ◌≡◌, refl, Bool, List, [], ◌∷◌, ◌++◌, arith, Text, length, length-append, Result,
}
use tauri_plugin_sqlite.Toolkit.Transactions.{
  TransactionWriter, Statement, ActiveInterruptibleTransactions, abort_all, held,
}
use tauri_plugin_sqlite.Toolkit.Transactions.Ledger.{count}
use tauri_plugin_sqlite.Plugin.{PluginError}
use tauri_plugin_sqlite.Plugin.Transactions.{
  TransactionToken, TransactionAction, Reply, writers_of, transaction_continue, transaction_read,
  begin_interruptible_transaction,
}
use tauri_plugin_sqlite.Plugin.Transactions.Writers.{
  writers_held, length-writers_of, acquired_by, transaction_continue-Keeps, transaction_read-Keeps,
  begin_interruptible_transaction-Keeps,
}

pub data Command (W V : Type 0) : Type 0 where
  begin_command :
      ℕ → ℕ → Bool → Result PluginError W → Text → Text → List (Statement V) → Command W V
  continue_command : ℕ → ℕ → TransactionToken → TransactionAction V → Command W V
  read_command : ℕ → ℕ → TransactionToken → Text → List V → Command W V
  -- The application exits.
  exit_command : Command W V

-- What commands have done: the registry, the number of writers from the pool, and those released.
pub record Served (W : Type 0) : Type 0 where
  pub registry : ActiveInterruptibleTransactions W
  pub acquired : ℕ
  pub released : List W

abbrev served : {W A : Type 0} → ℕ → Reply W A → Served W
served n reply = record { registry = reply.registry; acquired = n; released = reply.released }

module _ {W V R : Type 0} (sql : TransactionWriter W V R) where
  unfoldable pub serve : Command W V → ActiveInterruptibleTransactions W → Served W
  unfolding begin_interruptible_transaction transaction_continue transaction_read abort_all
      writers_of
  serve (begin_command now later is_loaded acquired db id statements) txs =
      served (acquired_by sql is_loaded acquired)
        (begin_interruptible_transaction sql now later is_loaded acquired db id statements txs)
  serve (continue_command now later token action) txs =
      served 0 (transaction_continue sql now later token action txs)
  serve (read_command now later token query values) txs =
      served 0 (transaction_read sql now later token query values txs)
  serve exit_command txs = record {
    registry = (abort_all txs).registry;
    acquired = 0;
    released = writers_of (abort_all txs).dropped;
  }

  unfoldable pub serve_all : List (Command W V) → ActiveInterruptibleTransactions W → Served W
  unfolding serve
  serve_all [] txs = record { registry = txs; acquired = 0; released = [] }
  serve_all (command ∷ commands) txs =
      let one = serve command txs in
      let rest = serve_all commands one.registry in
      record {
        registry = rest.registry;
        acquired = one.acquired + rest.acquired;
        released = one.released ++ rest.released;
      }

  serve-balance :
      (command : Command W V) (txs : ActiveInterruptibleTransactions W)
      → writers_held (serve command txs).registry + length (serve command txs).released
        ≡ writers_held txs + (serve command txs).acquired
  unfolding serve count held
  serve-balance (begin_command now later is_loaded acquired db id statements) txs =
      begin_interruptible_transaction-Keeps sql now later is_loaded acquired db id statements txs
  serve-balance (continue_command now later token action) txs =
      transaction_continue-Keeps sql now later token action txs
  serve-balance (read_command now later token query values) txs =
      transaction_read-Keeps sql now later token query values txs
  serve-balance exit_command txs = let dropped = length-writers_of (held txs.inner) in omega arith

  -- Over any sequence of transaction commands and an exit of the application, whatever tokens they
  -- show, whichever statements fail and whichever transactions time out, each writer that was held
  -- at the start or came from the pool is held by a registered transaction or has been released:
  -- none is kept out of the pool by a command that has returned.
  pub serve_all-balance :
      (commands : List (Command W V)) (txs : ActiveInterruptibleTransactions W)
      → writers_held (serve_all commands txs).registry + length (serve_all commands txs).released
        ≡ writers_held txs + (serve_all commands txs).acquired
  unfolding serve_all
  serve_all-balance [] txs = refl
  serve_all-balance (command ∷ commands) txs =
      let one = serve command txs in
      let rest = serve_all commands one.registry in
      let here = serve-balance command txs in
      let there = serve_all-balance commands one.registry in
      let released = length-append one.released rest.released in omega arith
