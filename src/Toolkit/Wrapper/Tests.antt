-- ===== src/Toolkit/Wrapper/Tests.antt =====
-- A Boolean is bound as JSON, and comes back as text. Floats are taken to be numbers.
use tauri_plugin_sqlite.Prelude.{ℕ, ◌≡◌, refl, true, List, Text, codes, ok}
use tauri_plugin_sqlite.Toolkit.Json.{Json, bool, string, unsigned, float}
use tauri_plugin_sqlite.Toolkit.Decode.{to_json}
use tauri_plugin_sqlite.Toolkit.Wrapper.{bind_value, bind_float}
use tauri_plugin_sqlite.Toolkit.Wrapper.Binding.{stored, read_back, to_json-bind_value}

abbrev text_of : Json → Text
text_of (bool true) = codes "true"
text_of j = codes "false"

abbrev plain_bytes : List ℕ → Text
plain_bytes b = b

abbrev same_bits : ℕ → ℕ
same_bits n = n

too_large : bind_value same_bits (unsigned 9223372036854775808) ≡ bind_float 9223372036854775808
unfolding bind_value
too_large = refl

boolean_as_text :
    read_back text_of plain_bytes same_bits same_bits (bool true) ≡ string (codes "true")
boolean_as_text = refl

to_json-bind_value_example :
    to_json plain_bytes (λ x. float x) (stored text_of (bind_value same_bits (bool true)))
    ≡ ok (read_back text_of plain_bytes same_bits same_bits (bool true))
to_json-bind_value_example = to_json-bind_value text_of plain_bytes same_bits same_bits (bool true)
