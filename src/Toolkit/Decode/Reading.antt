-- ===== src/Toolkit/Decode/Reading.antt =====
-- What a value of each type of SQLite is to be read as.
use tauri_plugin_sqlite.Prelude.{
  ℕ, ◌≡◌, Bool, true, false, [], ◌∷◌, ◌++◌, Option, none, some, codes, ◌||◌, ◌&&◌, Map, find,
  Result, ok, err,
}
use tauri_plugin_sqlite.Toolkit.{Error, unsupported_datatype}
use tauri_plugin_sqlite.Toolkit.Json.{Json, null, bool, string, unsigned, negative, float}
use tauri_plugin_sqlite.Toolkit.Decode.{SqliteValueRef}

-- What a value of SQLite is read as.
pub data ReadAs : Type 0 where
  strings integers reals booleans datetimes blobs nulls : ReadAs

-- The types that `to_json` names, each with what it reads them as.
abbrev pub named_types : Map ReadAs
named_types =
    (codes "TEXT", strings)
    ∷ (codes "REAL", reals)
    ∷ (codes "INTEGER", integers)
    ∷ (codes "NUMERIC", integers)
    ∷ (codes "BOOLEAN", booleans)
    ∷ (codes "DATE", strings)
    ∷ (codes "TIME", strings)
    ∷ (codes "DATETIME", datetimes)
    ∷ (codes "BLOB", blobs)
    ∷ (codes "NULL", nulls)
    ∷ []

abbrev pub is_absent : {A : Type 0} → Option A → Bool
is_absent none = true
is_absent (some a) = false

abbrev pub is_null_json : Json → Bool
is_null_json null = true
is_null_json j = false

-- A value of JSON, other than null, of the type that goes with what is read.
abbrev pub is_of_type : ReadAs → Json → Bool
is_of_type strings (string s) = true
is_of_type datetimes (string s) = true
is_of_type blobs (string s) = true
is_of_type integers (unsigned n) = true
is_of_type integers (negative n) = true
is_of_type reals (float bits) = true
is_of_type booleans (bool b) = true
is_of_type t j = false

module _ (from_f64 : ℕ → Json) (v : SqliteValueRef) where
  -- There is nothing to read: sqlx does not decode the value, or the float has no JSON.
  abbrev pub is_unreadable : ReadAs → Bool
  is_unreadable strings = is_absent v.decode_string
  is_unreadable integers = is_absent v.decode_i64
  is_unreadable reals = elim v.decode_f64 [ none ↦ true | some x ↦ is_null_json (from_f64 x) ]
  is_unreadable booleans = is_absent v.decode_bool
  is_unreadable datetimes = is_absent v.decode_datetime && is_absent v.decode_string
  is_unreadable blobs = is_absent v.decode_bytes
  is_unreadable nulls = true

  -- Null stands for NULL and for what is not readable, and for nothing else.
  abbrev pub IsReadAs : ReadAs → Json → Type 0
  IsReadAs t null = (v.is_null || is_unreadable t) ≡ true
  IsReadAs t j = ((v.is_null || is_unreadable t) ≡ false) × (is_of_type t j ≡ true)

  -- A value of a type without a name here is its text, and null for NULL only.
  abbrev pub IsText : Json → Type 0
  IsText null = v.is_null ≡ true
  IsText (string s) = (v.is_null ≡ false) × (v.decode_string ≡ some s)
  IsText j = ⊥

  abbrev pub Read : Option ReadAs → Result Error Json → Type 0
  Read (some t) (ok j) = IsReadAs t j
  Read (some t) (err e) = ⊥
  Read none (ok j) = IsText j
  Read none (err e) =
      (v.is_null ≡ false)
      × (v.decode_string ≡ none)
      × (e ≡ unsupported_datatype (codes "Unknown SQLite type: " ++ v.type_name))

  abbrev pub HasType : Result Error Json → Type 0
  HasType r = Read (find v.type_name named_types) r
