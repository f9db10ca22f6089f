-- ===== src/Toolkit/Transactions/Regular.antt =====
-- `ActiveRegularTransactions` of transactions.rs: the abort handles of the tasks that run regular
-- transactions, and `cleanup_all_transactions`.
use tauri_plugin_sqlite.Prelude.{List, [], ◌∷◌, Text, Map, put, erase}
use tauri_plugin_sqlite.Toolkit.Transactions.{
  ActiveInterruptibleTransaction, ActiveInterruptibleTransactions, abort_all,
}

module _ {H : Type 0} where
  unfoldable pub insert_regular : Text → H → Map H → Map H
  insert_regular key abort_handle txs = put key abort_handle txs

  unfoldable pub remove_regular : Text → Map H → Map H
  remove_regular key txs = erase key txs

  -- The handles that are aborted.
  unfoldable pub regular_handles : Map H → List H
  regular_handles [] = []
  regular_handles ((key, abort_handle) ∷ txs) = abort_handle ∷ regular_handles txs

  -- What is left, and the handles that are aborted.
  unfoldable pub abort_all_regular : Map H → Map H × List H
  abort_all_regular txs = ([], regular_handles txs)

  module _ {W : Type 0} where
    -- The registries behind it, the interruptible transactions that are dropped, and the handles
    -- that are aborted.
    unfoldable pub cleanup_all_transactions :
        ActiveInterruptibleTransactions W
        → Map H
        → ActiveInterruptibleTransactions W
          × List (ActiveInterruptibleTransaction W)
          × Map H
          × List H
    cleanup_all_transactions interruptible regular =
        let aborted = abort_all interruptible in
        let stopped = abort_all_regular regular in
        (aborted.registry, aborted.dropped, stopped.0, stopped.1)
