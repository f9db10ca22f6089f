-- ===== src/Toolkit/Decode.antt =====
-- crates/sqlx-sqlite-toolkit/src/decode.rs: a value of SQLite as JSON. What sqlx decodes a value as,
-- if it can, is an argument.
pub mod Reading
pub mod Typed
mod Tests
use tauri_plugin_sqlite.Prelude.{
  ℕ, Bool, true, false, ◌||◌, List, [], ◌∷◌, ◌++◌, Option, none, some, Text, codes, text_eq,
  if◌then◌else◌, Result, ok, err,
}
use tauri_plugin_sqlite.Toolkit.{Error, unsupported_datatype}
use tauri_plugin_sqlite.Toolkit.Json.{Json, null, bool, string, float}

-- A `SqliteValueRef`: its type's name, and `try_decode` at the types that are asked for. A date and
-- time is given as text, and an integer as the number of JSON that it becomes.
pub record SqliteValueRef : Type 0 where
  pub is_null : Bool
  pub type_name : Text
  pub decode_string : Option Text
  pub decode_f64 : Option ℕ
  pub decode_i64 : Option Json
  pub decode_bool : Option Bool
  pub decode_datetime : Option Text
  pub decode_bytes : Option (List ℕ)

abbrev pub or_null : {A : Type 0} → (A → Json) → Option A → Json
or_null f none = null
or_null f (some a) = f a

abbrev pub is_named : SqliteValueRef → Text → Bool
is_named v name = text_eq v.type_name name

-- `encode` is base64, `JsonValue::from` of an f64 `from_f64`.
unfoldable pub to_json : (List ℕ → Text) → (ℕ → Json) → SqliteValueRef → Result Error Json
to_json encode from_f64 v =
    if v.is_null
    then ok null
    else if is_named v (codes "TEXT")
    then ok (or_null string v.decode_string)
    else if is_named v (codes "REAL")
    then ok (or_null from_f64 v.decode_f64)
    else if is_named v (codes "INTEGER") || is_named v (codes "NUMERIC")
    then ok (or_null (λ j. j) v.decode_i64)
    else if is_named v (codes "BOOLEAN")
    then ok (or_null bool v.decode_bool)
    else if is_named v (codes "DATE")
    then ok (or_null string v.decode_string)
    else if is_named v (codes "TIME")
    then ok (or_null string v.decode_string)
    else if is_named v (codes "DATETIME")
    then ok (elim v.decode_datetime [ some dt ↦ string dt | none ↦ or_null string v.decode_string ])
    else if is_named v (codes "BLOB")
    then ok (or_null (λ blob. string (encode blob)) v.decode_bytes)
    else if is_named v (codes "NULL")
    then ok null
    else elim v.decode_string [
      | some text ↦ ok (string text)
      | none ↦ err (unsupported_datatype (codes "Unknown SQLite type: " ++ v.type_name))
    ]
