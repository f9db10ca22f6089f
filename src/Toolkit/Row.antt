-- ===== src/Toolkit/Row.antt =====
-- `IndexMap<String, JsonValue>`, a decoded row: its entries in column order.
use tauri_plugin_sqlite.Prelude.{Option, none, some, List, [], ◌∷◌, Text, text_eq, if◌then◌else◌}

abbrev pub Row : Type 0 → Type 0
Row V = List (Text × V)

-- `row.get(name)`
unfoldable pub get_value : {V : Type 0} → Row V → Text → Option V
get_value [] name = none
get_value ((column, value) ∷ row) name =
    if text_eq column name then some value else get_value row name
