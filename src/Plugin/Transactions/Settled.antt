-- ===== src/Plugin/Transactions/Settled.antt =====
-- What a command with the right token comes to: the transaction goes on, or it is over.
use tauri_plugin_sqlite.Prelude.{◌≡◌, ◌≢◌, [], ◌∷◌, Option, none, some, find, ok}
use tauri_plugin_sqlite.Toolkit.Transactions.{ActiveInterruptibleTransaction}
use tauri_plugin_sqlite.Plugin.Transactions.{TransactionToken, Reply}

module _ {W : Type 0} where
  -- The same transaction, with the same start, is at its path, and the frontend has its token.
  abbrev pub GoesOn :
      TransactionToken
      → ActiveInterruptibleTransaction W
      → Reply W (Option TransactionToken)
      → Type 0
  GoesOn token tx reply =
      (reply.result ≡ ok (some token))
      × (reply.released ≡ [])
      × (w : W) × (find token.db_path reply.registry.inner ≡ some (record tx { writer = some w }))

  -- Nothing is at its path, and its writer is let go of; the frontend has no token.
  abbrev pub IsOver : TransactionToken → Reply W (Option TransactionToken) → Type 0
  IsOver token reply =
      (reply.result ≢ ok (some token))
      × (find token.db_path reply.registry.inner ≡ none)
      × (w : W) × (reply.released ≡ w ∷ [])
