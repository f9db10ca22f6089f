-- ===== src/Observer/Hooks/Discretion.antt =====
-- What no subscriber sees: tables that nobody observes, and values that are not to be captured.
use tauri_plugin_sqlite.Prelude.{
  ℕ, ◌≡◌, true, false, List, none, some, Text, All, if◌then◌else◌, find,
}
use tauri_plugin_sqlite.Observer.Broker.{
  ColumnValue, PreUpdateEvent, TableChange, ObservationBroker, is_table_observed, rowid_of,
  values_to_vec, map_option,
}

-- Tables only come to be observed, and whether values are captured does not change.
pub record Grows (b c : ObservationBroker) : Type 0 where
  pub tables : (t : Text) → is_table_observed b t ≡ true → is_table_observed c t ≡ true
  pub values : c.capture_values ≡ b.capture_values

-- A change that may be seen: of an observed table, and without values if none are to be captured.
pub record MayBeSeen (b : ObservationBroker) (c : TableChange) : Type 0 where
  pub observed : is_table_observed b c.table ≡ true
  pub no_values : b.capture_values ≡ false → (c.old_values ≡ none) × (c.new_values ≡ none)

-- The change that an event and its key make.
abbrev change_of : ObservationBroker → ℕ → PreUpdateEvent → List ColumnValue → TableChange
change_of b now e pk = record {
  table = e.table;
  operation = some e.operation;
  rowid = rowid_of e (find e.table b.table_info);
  primary_key = pk;
  old_values = if b.capture_values then map_option values_to_vec e.old_values else none;
  new_values = if b.capture_values then map_option values_to_vec e.new_values else none;
  timestamp = now;
}

-- Every buffered event is of an observed table.
abbrev Observed : ObservationBroker → List PreUpdateEvent → Type 0
Observed b = All (λ e. is_table_observed b e.table ≡ true)
