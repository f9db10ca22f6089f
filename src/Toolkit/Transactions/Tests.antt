-- ===== src/Toolkit/Transactions/Tests.antt =====
-- The registry's theorems at a history of two databases. A writer is its number.
use tauri_plugin_sqlite.Prelude.{
  ℕ, ◌≡◌, refl, Bool, List, [], ◌∷◌, arith, Text, codes, text_eq, find, put, ok, err,
}
use tauri_plugin_sqlite.Toolkit.{transaction_timed_out}
use tauri_plugin_sqlite.Toolkit.Transactions.{
  ActiveInterruptibleTransaction, ActiveInterruptibleTransactions, new_transaction, Call,
  call_insert, call_remove, insert, remove, run,
}
use tauri_plugin_sqlite.Toolkit.Transactions.Deadline.{spares, remove-insert}

abbrev posts_path : Text
posts_path = codes "posts.db"

abbrev users_path : Text
users_path = codes "users.db"

abbrev on_posts : ActiveInterruptibleTransaction ℕ
on_posts = new_transaction 10 posts_path (codes "p") 1

abbrev on_users : ActiveInterruptibleTransaction ℕ
on_users = new_transaction 12 users_path (codes "u") 2

abbrev second_on_posts : ActiveInterruptibleTransaction ℕ
second_on_posts = new_transaction 20 posts_path (codes "q") 3

abbrev nothing_active : ActiveInterruptibleTransactions ℕ
nothing_active = record { inner = []; timeout = 300 }

-- Another database, a second transaction on the same one, and a wrong token.
abbrev others : List (Call ℕ)
others =
    call_insert 12 users_path on_users
    ∷ (call_insert 20 posts_path second_on_posts ∷ (call_remove 30 posts_path (codes "u") ∷ []))

abbrev is_first : ActiveInterruptibleTransaction ℕ → Bool
is_first tx = text_eq tx.transaction_id (codes "p")

second_is_dropped :
    (run others (insert 10 posts_path on_posts nothing_active).registry).dropped
    ≡ second_on_posts ∷ []
unfolding run insert find put text_eq
second_is_dropped = refl

abbrev posts_active : ActiveInterruptibleTransactions ℕ
posts_active = record { inner = (posts_path, on_posts) ∷ []; timeout = 300 }

timed_out :
    (remove 310 posts_path (codes "p") posts_active).result ≡ err (transaction_timed_out posts_path)
unfolding remove find text_eq
timed_out = refl

remove-insert_example :
    (remove 309 posts_path
      (codes "p")
      (run others (insert 10 posts_path on_posts nothing_active).registry).registry).result
    ≡ ok on_posts
unfolding insert find put text_eq spares
remove-insert_example =
    remove-insert 10 309 posts_path on_posts nothing_active others refl refl (omega arith)
