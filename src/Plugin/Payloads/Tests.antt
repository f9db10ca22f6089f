-- ===== src/Plugin/Payloads/Tests.antt =====
-- An insertion with a blob, and a loss, on their way to the frontend. The encoding is the identity.
use tauri_plugin_sqlite.Prelude.{
  ℕ, ◌≡◌, refl, true, List, [], ◌∷◌, map, none, some, Text, codes, text_eq, ltb,
}
use tauri_plugin_sqlite.Observer.Broker.{TableChange, insert, column_blob, column_integer}
use tauri_plugin_sqlite.Observer.Stream.{TableChangeEvent, change, lagged, poll_next}
use tauri_plugin_sqlite.Observer.Stream.Next.{selected}
use tauri_plugin_sqlite.Plugin.Payloads.{event_to_payload, forward_all, lagged_payload}
use tauri_plugin_sqlite.Plugin.Payloads.Delivered.{taken, forward_all-delivers}
use tauri_plugin_sqlite.Plugin.Payloads.Reading.{
  read_payload, at_time, read_payload-event_to_payload,
}

abbrev inserted : TableChange
inserted = record {
  table = codes "files";
  operation = some insert;
  rowid = some 7;
  primary_key = column_integer 7 ∷ [];
  old_values = none;
  new_values = some (column_integer 7 ∷ (column_blob (1 ∷ (2 ∷ [])) ∷ []));
  timestamp = 3;
}

abbrev items : List TableChangeEvent
items = change inserted ∷ (change (record inserted { table = codes "logs" }) ∷ (lagged 4 ∷ []))

abbrev plain_bytes : List ℕ → Text
plain_bytes b = b

sends_two :
    forward_all plain_bytes (λ i. ltb i 2) (some (codes "files" ∷ [])) true items
    ≡ event_to_payload plain_bytes (change inserted) ∷ (lagged_payload 4 ∷ [])
unfolding forward_all text_eq event_to_payload poll_next
sends_two = refl

forward_all-delivers_example :
    forward_all plain_bytes (λ i. ltb i 1) (some (codes "files" ∷ [])) true items
    ≡ taken
        (λ i. ltb i 1)
        0
        (map (event_to_payload plain_bytes) (selected (some (codes "files" ∷ [])) items))
forward_all-delivers_example =
    forward_all-delivers plain_bytes (λ i. ltb i 1) (some (codes "files" ∷ [])) true items

read_payload-event_to_payload_example :
    read_payload plain_bytes 0 (event_to_payload plain_bytes (change inserted))
    ≡ at_time 0 (change inserted)
read_payload-event_to_payload_example =
    read_payload-event_to_payload plain_bytes plain_bytes (λ b. refl) 0 (change inserted)
