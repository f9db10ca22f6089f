-- ===== src/Toolkit/Decode/Tests.antt =====
-- A blob, and a value that does not decode. Base64 is taken to be the identity.
use tauri_plugin_sqlite.Prelude.{
  ℕ, ◌≡◌, refl, false, [], ◌∷◌, none, some, Text, codes, text_eq, List, ok,
}
use tauri_plugin_sqlite.Toolkit.Json.{string, float}
use tauri_plugin_sqlite.Toolkit.Decode.{SqliteValueRef, to_json}
use tauri_plugin_sqlite.Toolkit.Decode.Reading.{HasType}
use tauri_plugin_sqlite.Toolkit.Decode.Typed.{to_json-HasType}

abbrev photo : SqliteValueRef
photo = record {
  is_null = false;
  type_name = codes "BLOB";
  decode_string = none;
  decode_f64 = none;
  decode_i64 = none;
  decode_bool = none;
  decode_datetime = none;
  decode_bytes = some (7 ∷ (8 ∷ []));
}

abbrev plain_bytes : List ℕ → Text
plain_bytes b = b

photo_as_text : to_json plain_bytes float photo ≡ ok (string (7 ∷ (8 ∷ [])))
unfolding to_json text_eq
photo_as_text = refl

to_json-HasType_example : HasType float photo (to_json plain_bytes float photo)
to_json-HasType_example = to_json-HasType plain_bytes float photo (λ x. refl) (λ j h. absurd (cc))
