-- ===== src/Toolkit/Wrapper/Binding.antt =====
-- A value that is bound, stored in a column without a type, and read again.
use tauri_plugin_sqlite.Prelude.{
  ℕ, ◌≡◌, refl, inl, inr, true, false, List, none, some, Text, codes, text_eq, leb, Bool-cases,
  if◌then◌else◌, ok,
}
use tauri_plugin_sqlite.Toolkit.Json.{Json, null, bool, string, unsigned, negative, float, compound}
use tauri_plugin_sqlite.Toolkit.Decode.{SqliteValueRef, to_json}
use tauri_plugin_sqlite.Toolkit.Wrapper.{
  Bound, bind_null, bind_text, bind_nonnegative, bind_negative, bind_float, bind_json, bind_value,
  bind_number, i64_max,
}

-- A value of the type that decodes as nothing.
abbrev undecoded : Text → SqliteValueRef
undecoded name = record {
  is_null = false;
  type_name = name;
  decode_string = none;
  decode_f64 = none;
  decode_i64 = none;
  decode_bool = none;
  decode_datetime = none;
  decode_bytes = none;
}

module _ (text_of : Json → Text) where
  -- How SQLite keeps what is bound; JSON is bound as its text.
  abbrev pub stored : Bound → SqliteValueRef
  stored bind_null = record (undecoded (codes "NULL")) { is_null = true }
  stored (bind_text s) = record (undecoded (codes "TEXT")) { decode_string = some s }
  stored (bind_nonnegative n) = record (undecoded (codes "INTEGER")) {
    decode_i64 = some (unsigned n);
  }
  stored (bind_negative n) = record (undecoded (codes "INTEGER")) { decode_i64 = some (negative n) }
  stored (bind_float bits) = record (undecoded (codes "REAL")) { decode_f64 = some bits }
  stored (bind_json j) = record (undecoded (codes "TEXT")) { decode_string = some (text_of j) }

  module _ (encode : List ℕ → Text) (from_f64 as_f64 : ℕ → ℕ) where
    -- What is read again: an integer that does not fit in 64 bits with a sign is converted, and a
    -- value that is bound as JSON comes back as its text.
    abbrev pub read_back : Json → Json
    read_back null = null
    read_back (string s) = string s
    read_back (unsigned n) = if leb n i64_max then unsigned n else float (from_f64 (as_f64 n))
    read_back (negative n) = negative n
    read_back (float bits) = float (from_f64 bits)
    read_back (bool b) = string (text_of (bool b))
    read_back (compound t) = string (text_of (compound t))

    bind_unsigned :
        (n : ℕ)
        → bind_value as_f64 (unsigned n)
          ≡ (if leb n i64_max then bind_nonnegative n else bind_float (as_f64 n))
    unfolding bind_value
    bind_unsigned n = elim (Bool-cases (leb n i64_max)) [
      | inl e ↦ rw (bind_number, e) refl
      | inr e ↦ rw (bind_number, e) (rw e refl)
    ]

    -- What is bound by `bind_value` and then decoded by `to_json` is the value again for null, text,
    -- negative integers and integers up to 2^63 - 1; a larger integer becomes the float that it is
    -- converted to, and a Boolean, an array or an object becomes text.
    pub to_json-bind_value :
        (j : Json)
        → to_json encode (λ x. float (from_f64 x)) (stored (bind_value as_f64 j)) ≡ ok (read_back j)
    unfolding to_json bind_value text_eq
    to_json-bind_value null = refl
    to_json-bind_value (string s) = refl
    to_json-bind_value (unsigned n) =
        rw (bind_unsigned n)
          (elim (Bool-cases (leb n i64_max)) [ inl e ↦ rw e refl | inr e ↦ rw e refl ])
    to_json-bind_value (negative n) = refl
    to_json-bind_value (float bits) = refl
    to_json-bind_value (bool b) = refl
    to_json-bind_value (compound t) = refl
