-- ===== src/Plugin/Payloads/Reading.antt =====
-- A payload tells everything about its event but the time.
use tauri_plugin_sqlite.Prelude.{
  ℕ, ◌≡◌, refl, ap, ◌∙◌, List, [], ◌∷◌, map, Option, none, some, Text, codes, text_eq,
  if◌then◌else◌,
}
use tauri_plugin_sqlite.Observer.Broker.{
  ColumnValue, column_null, column_integer, column_real, column_text, column_blob, ChangeOperation,
  insert, update, delete, TableChange, map_option,
}
use tauri_plugin_sqlite.Observer.Stream.{TableChangeEvent, change, lagged}
use tauri_plugin_sqlite.Plugin.Payloads.{
  ColumnValuePayload, null, integer, real, text, blob, TableChangeData, TableChangePayload,
  change_payload, lagged_payload, operation_name, value_payload, change_to_data, event_to_payload,
}

-- What a reader of the payloads does.
unfoldable pub read_operation : Text → Option ChangeOperation
read_operation s =
    if text_eq s (codes "insert")
    then some insert
    else if text_eq s (codes "update")
    then some update
    else if text_eq s (codes "delete")
    then some delete
    else none

abbrev pub flatten : {A : Type 0} → Option (Option A) → Option A
flatten none = none
flatten (some o) = o

module _ (decode : Text → List ℕ) where
  unfoldable pub read_value : ColumnValuePayload → ColumnValue
  read_value null = column_null
  read_value (integer i) = column_integer i
  read_value (real r) = column_real r
  read_value (text s) = column_text s
  read_value (blob b) = column_blob (decode b)

  unfoldable pub read_data : TableChangeData → ℕ → TableChange
  unfolding read_value read_operation
  read_data d now = record {
    table = d.table;
    operation = flatten (map_option read_operation d.operation);
    rowid = d.rowid;
    primary_key = map read_value d.primary_key;
    old_values = map_option (map read_value) d.old_values;
    new_values = map_option (map read_value) d.new_values;
    timestamp = now;
  }

  unfoldable pub read_payload : ℕ → TableChangePayload → TableChangeEvent
  unfolding read_data
  read_payload now (change_payload d) = change (read_data d now)
  read_payload now (lagged_payload count) = lagged count

abbrev pub at_time : ℕ → TableChangeEvent → TableChangeEvent
at_time now (change c) = change (record c { timestamp = now })
at_time now (lagged count) = lagged count

read_operation-operation_name : (o : ChangeOperation) → read_operation (operation_name o) ≡ some o
unfolding read_operation operation_name text_eq
read_operation-operation_name insert = refl
read_operation-operation_name update = refl
read_operation-operation_name delete = refl

module _ (encode : List ℕ → Text) (decode : Text → List ℕ)
    (base64 : (b : List ℕ) → decode (encode b) ≡ b) where
  read_value-value_payload : (v : ColumnValue) → read_value decode (value_payload encode v) ≡ v
  unfolding read_value value_payload
  read_value-value_payload column_null = refl
  read_value-value_payload (column_integer i) = refl
  read_value-value_payload (column_real r) = refl
  read_value-value_payload (column_text s) = refl
  read_value-value_payload (column_blob b) = ap column_blob (base64 b)

  read_values :
      (vs : List ColumnValue) → map (read_value decode) (map (value_payload encode) vs) ≡ vs
  read_values [] = refl
  read_values (v ∷ vs) =
      ap (◌∷◌ (read_value decode (value_payload encode v))) (read_values vs)
      ∙ ap (λ x. x ∷ vs) (read_value-value_payload v)

  read_options :
      (o : Option (List ColumnValue))
      → map_option (map (read_value decode)) (map_option (map (value_payload encode)) o) ≡ o
  read_options none = refl
  read_options (some vs) = ap some (read_values vs)

  read_operations :
      (o : Option ChangeOperation)
      → flatten (map_option read_operation (map_option operation_name o)) ≡ o
  read_operations none = refl
  read_operations (some o) = read_operation-operation_name o

  -- From the payload of an event a reader gets the event again, but for the time of a change, which
  -- is not sent; if base64 decodes what it encodes.
  pub read_payload-event_to_payload :
      (now : ℕ) (e : TableChangeEvent)
      → read_payload decode now (event_to_payload encode e) ≡ at_time now e
  unfolding read_payload read_data event_to_payload change_to_data
  read_payload-event_to_payload now (lagged count) = refl
  read_payload-event_to_payload now (change c) =
      rw
        (
          read_operations c.operation,
          read_values c.primary_key,
          read_options c.old_values,
          read_options c.new_values,
        )
        refl
