-- ===== src/Observer/Hooks/Tests.antt =====
-- A broker that observes one table, and a committed and a rolled-back transaction.
use tauri_plugin_sqlite.Prelude.{
  ℕ, zero, suc, ◌≡◌, ◌↔◌, refl, false, List, [], ◌∷◌, map, Option, none, some, Text, codes, text_eq,
  find, ok,
}
use tauri_plugin_sqlite.Observer.Broker.{
  SqliteValue, integer, text, column_integer, delete, TableInfo, TableChange, ObservationBroker,
  extract_primary_key, on_commit, on_preupdate, is_table_observed, on_rollback, key_row,
}
use tauri_plugin_sqlite.Observer.Hooks.{PreUpdate, event_of, fire_all, capture}
use tauri_plugin_sqlite.Observer.Hooks.Keys.{told, sqlite_value, extract_primary_key-event_of_iff}
use tauri_plugin_sqlite.Observer.Hooks.Transactions.{
  Transaction, hooks_of_all, published, fire_all-published,
}

abbrev posts : Text
posts = codes "posts"

abbrev info : TableInfo
info = record { pk_columns = 0 ∷ []; without_rowid = false }

abbrev observing : ObservationBroker
observing = record {
  buffer = [];
  observed_tables = posts ∷ [];
  table_info = (posts, info) ∷ [];
  capture_values = false;
}

abbrev row : ℕ → ℕ → Option SqliteValue
row n zero = some (integer n)
row n (suc i) = some (text (codes "title"))

abbrev inserted : Text → ℕ → PreUpdate
inserted table n = record {
  op = 18;
  table = some table;
  old_rowid = 0;
  new_rowid = n;
  column_count = some 2;
  old_value = λ i. none;
  new_value = row n;
}

abbrev history : List Transaction
history =
    record { changes = inserted posts 1 ∷ []; committed_at = none }
    ∷ (record {
      changes = inserted posts 2 ∷ (inserted (codes "logs") 9 ∷ (inserted posts 3 ∷ []));
      committed_at = some (λ i. i);
    }
        ∷ [])

fire_all-published_example :
    fire_all (hooks_of_all history) observing ≡ (observing, published observing history)
fire_all-published_example = fire_all-published observing history

sent :
    map {A = TableChange} (λ c. c.primary_key) (fire_all (hooks_of_all history) observing).1
    ≡ (column_integer 2 ∷ []) ∷ ((column_integer 3 ∷ []) ∷ [])
unfolding fire_all hooks_of_all on_commit is_table_observed on_rollback text_eq on_preupdate find
sent = refl

-- The row goes, and its key with it.
abbrev deleted : PreUpdate
deleted = record (inserted posts 7) { op = 9; old_value = row 5 }

extract_primary_key-event_of_iff_example :
    (extract_primary_key (event_of deleted posts delete 2) (some info) ≡ ok (column_integer 5 ∷ []))
    ↔ (map (told deleted delete 2) (0 ∷ [])
        ≡ map (λ c. some (sqlite_value c)) (column_integer 5 ∷ []))
extract_primary_key-event_of_iff_example =
    extract_primary_key-event_of_iff deleted posts 2 delete info (column_integer 5 ∷ [])

deleted_key :
    extract_primary_key (event_of deleted posts delete 2) (some info) ≡ ok (column_integer 5 ∷ [])
unfolding extract_primary_key key_row capture
deleted_key = refl
