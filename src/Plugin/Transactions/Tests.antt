-- ===== src/Plugin/Transactions/Tests.antt =====
-- The commands at one database. A writer is the list of the statements that it has run, and the
-- empty statement is an error.
use tauri_plugin_sqlite.Prelude.{
  ℕ, ◌+◌, ◌≡◌, refl, true, List, [], ◌∷◌, ◌++◌, Text, codes, text_eq, find, ok, err, is_empty,
  if◌then◌else◌, length,
}
use tauri_plugin_sqlite.Toolkit.{sqlx}
use tauri_plugin_sqlite.Toolkit.Transactions.{
  TransactionWriter, Statement, ActiveInterruptibleTransaction, ActiveInterruptibleTransactions,
  new_transaction, remove, continue_with, rollback,
}
use tauri_plugin_sqlite.Plugin.Transactions.{
  TransactionToken, TransactionAction, do_continue, transaction_continue,
}
use tauri_plugin_sqlite.Plugin.Transactions.Writers.{writers_held}
use tauri_plugin_sqlite.Plugin.Transactions.Histories.{
  Command, begin_command, continue_command, exit_command, serve_all, serve_all-balance,
}

abbrev logging : TransactionWriter (List Text) ℕ ℕ
logging = record {
  execute_query = λ w query values. (
    if is_empty query then err (sqlx (codes "incomplete input")) else ok (length values),
    w ++ (query ∷ []),
  );
  fetch_all = λ w query values. (ok [], w);
  detach_if_attached = λ w. ok tt;
}

abbrev db : Text
db = codes "posts.db"

abbrev statement : Text → Statement ℕ
statement query = record { query = query; values = [] }

abbrev token : TransactionToken
token = record { db_path = db; transaction_id = codes "p" }

abbrev active : ActiveInterruptibleTransaction (List Text)
active = new_transaction 10 db (codes "p") (codes "BEGIN IMMEDIATE" ∷ [])

abbrev one_active : ActiveInterruptibleTransactions (List Text)
one_active = record { inner = (db, active) ∷ []; timeout = 300 }

abbrev failing : TransactionAction ℕ
failing = do_continue (statement (codes "DELETE FROM posts") ∷ (statement [] ∷ []))

rolled_back :
    (transaction_continue logging 20 21 token failing one_active).released
    ≡ (codes "BEGIN IMMEDIATE" ∷ (codes "DELETE FROM posts" ∷ ([] ∷ (codes "ROLLBACK" ∷ [])))) ∷ []
unfolding transaction_continue text_eq remove find continue_with rollback
rolled_back = refl

abbrev session : List (Command (List Text) ℕ)
session =
    begin_command 5 6 true (ok []) db (codes "q") []
    ∷ (continue_command 20 21 token failing
        ∷ (begin_command 30 31 true (ok []) db (codes "r") [] ∷ (exit_command ∷ [])))

serve_all-balance_example :
    writers_held (serve_all logging session one_active).registry
      + length (serve_all logging session one_active).released
    ≡ writers_held one_active + (serve_all logging session one_active).acquired
serve_all-balance_example = serve_all-balance logging session one_active
