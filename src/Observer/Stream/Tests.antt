-- ===== src/Observer/Stream/Tests.antt =====
-- A stream that is filtered skips the changes of other tables.
use tauri_plugin_sqlite.Prelude.{◌≡◌, refl, true, false, [], ◌∷◌, none, some, Text, codes, text_eq}
use tauri_plugin_sqlite.Observer.Broker.{TableChange}
use tauri_plugin_sqlite.Observer.Stream.{change, lagged, ready, poll_next}

abbrev to_table : Text → TableChange
to_table table = record {
  table = table;
  operation = none;
  rowid = none;
  primary_key = [];
  old_values = none;
  new_values = none;
  timestamp = 0;
}

skips :
    poll_next
      (some (codes "posts" ∷ []))
      false
      (change (to_table (codes "users")) ∷ (change (to_table (codes "posts")) ∷ (lagged 2 ∷ [])))
    ≡ (ready (some (change (to_table (codes "posts")))), lagged 2 ∷ [])
unfolding poll_next text_eq
skips = refl

ends : poll_next none true [] ≡ (ready none, [])
unfolding poll_next
ends = refl
