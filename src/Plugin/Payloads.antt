-- ===== src/Plugin/Payloads.antt =====
-- src/subscriptions.rs and the task of `subscribe` in src/commands.rs: the events of a stream as they
-- are sent to the frontend. `encode` is base64. A floating-point number is its bits.
pub mod Delivered
pub mod Reading
mod Tests
use tauri_plugin_sqlite.Prelude.{
  ℕ, zero, suc, Bool, true, false, List, [], ◌∷◌, map, Option, none, some, Text, codes, length,
  if◌then◌else◌,
}
use tauri_plugin_sqlite.Observer.Broker.{
  ColumnValue, column_null, column_integer, column_real, column_text, column_blob, ChangeOperation,
  insert, update, delete, TableChange, map_option,
}
use tauri_plugin_sqlite.Observer.Stream.{
  TableChangeEvent, change, lagged, TableChangeStream, Poll, ready, waiting, poll_next,
}

pub data ColumnValuePayload : Type 0 where
  null : ColumnValuePayload
  integer : ℕ → ColumnValuePayload
  real : ℕ → ColumnValuePayload
  text : Text → ColumnValuePayload
  blob : Text → ColumnValuePayload

pub record TableChangeData : Type 0 where
  pub table : Text
  pub operation : Option Text
  pub rowid : Option ℕ
  pub primary_key : List ColumnValuePayload
  pub old_values : Option (List ColumnValuePayload)
  pub new_values : Option (List ColumnValuePayload)

pub data TableChangePayload : Type 0 where
  change_payload : TableChangeData → TableChangePayload
  lagged_payload : ℕ → TableChangePayload

unfoldable pub operation_name : ChangeOperation → Text
operation_name insert = codes "insert"
operation_name update = codes "update"
operation_name delete = codes "delete"

module _ (encode : List ℕ → Text) where
  -- `From<&ColumnValue> for ColumnValuePayload`
  unfoldable pub value_payload : ColumnValue → ColumnValuePayload
  value_payload column_null = null
  value_payload (column_integer i) = integer i
  value_payload (column_real r) = real r
  value_payload (column_text s) = text s
  value_payload (column_blob b) = blob (encode b)

  unfoldable pub change_to_data : TableChange → TableChangeData
  unfolding value_payload operation_name
  change_to_data c = record {
    table = c.table;
    operation = map_option operation_name c.operation;
    rowid = c.rowid;
    primary_key = map value_payload c.primary_key;
    old_values = map_option (map value_payload) c.old_values;
    new_values = map_option (map value_payload) c.new_values;
  }

  unfoldable pub event_to_payload : TableChangeEvent → TableChangePayload
  unfolding change_to_data
  event_to_payload (change c) = change_payload (change_to_data c)
  event_to_payload (lagged count) = lagged_payload count

  -- The task: the payloads that `on_event.send` takes, until it refuses one or the stream ends; the
  -- rest waits for items. `accepts` says which send is taken. The fuel is one more than the items.
  unfoldable pub forward :
      ℕ
      → (ℕ → Bool)
      → ℕ
      → TableChangeStream
      → Bool
      → List TableChangeEvent
      → List TableChangePayload
  unfolding event_to_payload
  forward zero accepts i stream closed items = []
  forward (suc fuel) accepts i stream closed items =
      let polled = poll_next stream closed items in
      elim polled.0 [
        | waiting ↦ []
        | ready end ↦ elim end [
          | none ↦ []
          | some event ↦ elim (accepts i) [
            | true ↦ event_to_payload event ∷ forward fuel accepts (suc i) stream closed polled.1
            | false ↦ []
          ]
        ]
      ]

  -- `forward` with the fuel that it needs.
  unfoldable pub forward_all :
      (ℕ → Bool) → TableChangeStream → Bool → List TableChangeEvent → List TableChangePayload
  unfolding forward
  forward_all accepts stream closed items =
      forward (suc (length items)) accepts 0 stream closed items
