-- ===== src/Plugin/Exit.antt =====
-- src/lib.rs, the exit of the app: `CLEANUP_STATE`, the handler of `ExitRequested`, and the task that
-- cleans up, whose guard asks for the exit at its end.
pub mod Phases
mod Tests
use tauri_plugin_sqlite.Prelude.{
  ℕ, zero, suc, Bool, true, false, List, [], ◌∷◌, Option, none, some, Text, Map, Result,
}
use tauri_plugin_sqlite.Toolkit.Transactions.{
  ActiveInterruptibleTransaction, ActiveInterruptibleTransactions,
}
use tauri_plugin_sqlite.Toolkit.Transactions.Regular.{cleanup_all_transactions}
use tauri_plugin_sqlite.Plugin.{PluginError}
use tauri_plugin_sqlite.Plugin.Subscriptions.{ActiveSubscription}
use tauri_plugin_sqlite.Plugin.Databases.{DbInstances, abort_all_subscriptions}

-- The values 0, 1 and 2 of `CLEANUP_STATE`.
pub data CleanupState : Type 0 where
  not_started : CleanupState
  running : CleanupState
  complete : CleanupState

-- The state, the cleanup tasks that run and that were ever started, and the calls of `exit(0)`.
pub record ExitState : Type 0 where
  pub cleanup : CleanupState
  pub tasks : ℕ
  pub started : ℕ
  pub exits : ℕ

-- The handler of `ExitRequested`: whether it prevents the exit, and the state behind it.
unfoldable pub on_exit_requested : Option ℕ → ExitState → Bool × ExitState
on_exit_requested (some code) s = (false, s)
on_exit_requested none s = elim s.cleanup [
  | not_started ↦ (
    true,
    record { cleanup = running; tasks = suc s.tasks; started = suc s.started; exits = s.exits },
  )
  | running ↦ (true, s)
  | complete ↦ (false, s)
]

-- A cleanup task ends, done, timed out or panicked: its guard is dropped.
unfoldable pub drop_guard : ExitState → ExitState
drop_guard s = elim s.tasks [
  | zero ↦ s
  | suc n ↦ record { cleanup = complete; tasks = n; started = s.started; exits = suc s.exits }
]

-- What the app's loop sees: a request to exit, by the user or with a code, and the end of a task.
pub data ExitEvent : Type 0 where
  exit_requested : Option ℕ → ExitEvent
  task_ends : ExitEvent

unfoldable pub run_exit : List ExitEvent → ExitState → ExitState
run_exit [] s = s
run_exit (exit_requested code ∷ events) s = run_exit events (on_exit_requested code s).1
run_exit (task_ends ∷ events) s = run_exit events (drop_guard s)

abbrev pub at_start : ExitState
at_start = record { cleanup = not_started; tasks = 0; started = 0; exits = 0 }

-- What the plugin keeps while the app runs. `D` is a database wrapper, `W` a writer and `H` an abort
-- handle.
pub record PluginState (D W H : Type 0) : Type 0 where
  pub instances : DbInstances D
  pub interruptible : ActiveInterruptibleTransactions W
  pub regular : Map H
  pub subscriptions : Map (ActiveSubscription H)

-- What the cleanup has done: the state behind it, the wrappers that it closes, the transactions that
-- it drops and the tasks that it aborts.
pub record CleanedUp (D W H : Type 0) : Type 0 where
  pub state : PluginState D W H
  pub closed : List D
  pub dropped : List (ActiveInterruptibleTransaction W)
  pub aborted_subscriptions : List H
  pub aborted_transactions : List H

unfoldable pub drain : {D : Type 0} → Map D → List D
drain [] = []
drain ((db, d) ∷ m) = d ∷ drain m

-- The body of the task, if it runs to its end. Errors of closing are only logged.
unfoldable pub clean_up : {D W H : Type 0} → PluginState D W H → CleanedUp D W H
clean_up s =
    let transactions = cleanup_all_transactions s.interruptible s.regular in
    record {
      state = record {
        instances = record s.instances { inner = [] };
        interruptible = transactions.0;
        regular = transactions.2;
        subscriptions = [];
      };
      closed = drain s.instances.inner;
      dropped = transactions.1;
      aborted_subscriptions = abort_all_subscriptions s.subscriptions;
      aborted_transactions = transactions.3;
    }
