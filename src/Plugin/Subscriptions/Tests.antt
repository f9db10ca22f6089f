-- ===== src/Plugin/Subscriptions/Tests.antt =====
-- Three subscriptions to two databases. A handle is a number.
use tauri_plugin_sqlite.Prelude.{ℕ, ◌≡◌, refl, [], ◌∷◌, Text, codes, text_eq, Map, find, Distinct}
use tauri_plugin_sqlite.Plugin.Subscriptions.{ActiveSubscription, remove_for_db, count_for_db}
use tauri_plugin_sqlite.Plugin.Subscriptions.Filtered.{others, handles, remove_for_db-filtered}

abbrev posts_path : Text
posts_path = codes "posts.db"

abbrev subscribed : Map (ActiveSubscription ℕ)
subscribed =
    (codes "a", record { abort_handle = 1; db_path = posts_path })
    ∷ ((codes "b", record { abort_handle = 2; db_path = codes "users.db" })
        ∷ ((codes "c", record { abort_handle = 3; db_path = posts_path }) ∷ []))

remove_for_db-filtered_example :
    remove_for_db subscribed posts_path
    ≡ (others subscribed posts_path, handles subscribed posts_path)
unfolding Distinct find text_eq
remove_for_db-filtered_example =
    remove_for_db-filtered subscribed posts_path (refl, (refl, (refl, tt)))

aborted : handles subscribed posts_path ≡ 1 ∷ (3 ∷ [])
unfolding handles text_eq
aborted = refl

counted : count_for_db subscribed posts_path ≡ 2
unfolding count_for_db text_eq
counted = refl
