-- ===== src/Toolkit/Decode/Typed.antt =====
-- `to_json` reads a value as its type asks.
use tauri_plugin_sqlite.Prelude.{
  ℕ, ◌≡◌, refl, inl, inr, Bool, true, false, List, ◌++◌, Option, none, some, Text, codes, ◌||◌, sym,
  ap, subst, ◌∙◌, text_eq, text_eq→≡, text_eq_comm, find, Bool-cases, Option-cases, Result, ok, err,
}
use tauri_plugin_sqlite.Toolkit.{Error, unsupported_datatype}
use tauri_plugin_sqlite.Toolkit.Json.{Json, null, bool, string, unsigned, negative, float, compound}
use tauri_plugin_sqlite.Toolkit.Decode.{SqliteValueRef, or_null, to_json}
use tauri_plugin_sqlite.Toolkit.Decode.Reading.{
  ReadAs, strings, integers, reals, booleans, datetimes, blobs, nulls, named_types, is_null_json,
  is_of_type, IsReadAs, Read, HasType,
}

module _ (encode : List ℕ → Text) (from_f64 : ℕ → Json) (v : SqliteValueRef)
    (floats : (x : ℕ) → (is_null_json (from_f64 x) || is_of_type reals (from_f64 x)) ≡ true)
    (numbers : (j : Json) → v.decode_i64 ≡ some j → is_of_type integers j ≡ true) where
  abbrev Typed : Type 0
  Typed = HasType from_f64 v (to_json encode from_f64 v)

  null-Read : v.is_null ≡ true → (t : Option ReadAs) → Read from_f64 v t (ok null)
  null-Read e none = e
  null-Read e (some t) = rw e refl

  module _ (full : v.is_null ≡ false) where
    string-Read :
        (o : Option Text) → o ≡ v.decode_string → IsReadAs from_f64 v strings (or_null string o)
    string-Read none e = rw (← e, full) refl
    string-Read (some s) e = (rw (← e, full) refl, refl)

    real-Read : (o : Option ℕ) → o ≡ v.decode_f64 → IsReadAs from_f64 v reals (or_null from_f64 o)
    real-Read none e = rw (← e, full) refl
    real-Read (some x) e = float-Read (from_f64 x) refl (floats x)
      where
        float-Read :
            (j : Json)
            → from_f64 x ≡ j
            → (is_null_json (from_f64 x) || is_of_type reals (from_f64 x)) ≡ true
            → IsReadAs from_f64 v reals j
        float-Read null is h = rw (← e, full) (ap is_null_json is)
        float-Read (float bits) is h = (rw (← e, full) (ap is_null_json is), refl)
        float-Read (bool b) is h = absurd (let r : false ≡ true = rw is at h in cc)
        float-Read (string s) is h = absurd (let r : false ≡ true = rw is at h in cc)
        float-Read (unsigned n) is h = absurd (let r : false ≡ true = rw is at h in cc)
        float-Read (negative n) is h = absurd (let r : false ≡ true = rw is at h in cc)
        float-Read (compound t) is h = absurd (let r : false ≡ true = rw is at h in cc)

    integer-Read :
        (o : Option Json) → o ≡ v.decode_i64 → IsReadAs from_f64 v integers (or_null (λ j. j) o)
    integer-Read none e = rw (← e, full) refl
    integer-Read (some null) e = absurd (let r : false ≡ true = numbers null (sym e) in cc)
    integer-Read (some (unsigned n)) e = (rw (← e, full) refl, refl)
    integer-Read (some (negative n)) e = (rw (← e, full) refl, refl)
    integer-Read (some (bool b)) e = (rw (← e, full) refl, numbers (bool b) (sym e))
    integer-Read (some (string s)) e = (rw (← e, full) refl, numbers (string s) (sym e))
    integer-Read (some (float n)) e = (rw (← e, full) refl, numbers (float n) (sym e))
    integer-Read (some (compound t)) e = (rw (← e, full) refl, numbers (compound t) (sym e))

    boolean-Read :
        (o : Option Bool) → o ≡ v.decode_bool → IsReadAs from_f64 v booleans (or_null bool o)
    boolean-Read none e = rw (← e, full) refl
    boolean-Read (some b) e = (rw (← e, full) refl, refl)

    datetime-Read :
        (o p : Option Text)
        → o ≡ v.decode_datetime
        → p ≡ v.decode_string
        → IsReadAs from_f64 v datetimes (elim o [ some dt ↦ string dt | none ↦ or_null string p ])
    datetime-Read (some dt) p e f = (rw (← e, full) refl, refl)
    datetime-Read none (some s) e f = (rw (← e, ← f, full) refl, refl)
    datetime-Read none none e f = rw (← e, ← f, full) refl

    blob-Read :
        (o : Option (List ℕ))
        → o ≡ v.decode_bytes
        → IsReadAs from_f64 v blobs (or_null (λ b. string (encode b)) o)
    blob-Read none e = rw (← e, full) refl
    blob-Read (some b) e = (rw (← e, full) refl, refl)

    typed :
        (t : ReadAs) (j : Json)
        → find v.type_name named_types ≡ some t
        → to_json encode from_f64 v ≡ ok j
        → IsReadAs from_f64 v t j
        → Typed
    typed t j f g h =
        subst (λ o. Read from_f64 v o (to_json encode from_f64 v)) (sym f)
          (subst (Read from_f64 v (some t)) (sym g) h)

    named_text : text_eq v.type_name (codes "TEXT") ≡ true → Typed
    unfolding to_json find text_eq
    named_text e =
        let name = text_eq→≡ v.type_name (codes "TEXT") e in
        typed strings (or_null string v.decode_string) (rw name refl)
          (rw (full, to_json) (rw name refl)) (string-Read v.decode_string refl)

    named_real : text_eq v.type_name (codes "REAL") ≡ true → Typed
    unfolding to_json find text_eq
    named_real e =
        let name = text_eq→≡ v.type_name (codes "REAL") e in
        typed reals (or_null from_f64 v.decode_f64) (rw name refl)
          (rw (full, to_json) (rw name refl)) (real-Read v.decode_f64 refl)

    named_integer : text_eq v.type_name (codes "INTEGER") ≡ true → Typed
    unfolding to_json find text_eq
    named_integer e =
        let name = text_eq→≡ v.type_name (codes "INTEGER") e in
        typed integers (or_null (λ j. j) v.decode_i64) (rw name refl)
          (rw (full, to_json) (rw name refl)) (integer-Read v.decode_i64 refl)

    named_numeric : text_eq v.type_name (codes "NUMERIC") ≡ true → Typed
    unfolding to_json find text_eq
    named_numeric e =
        let name = text_eq→≡ v.type_name (codes "NUMERIC") e in
        typed integers (or_null (λ j. j) v.decode_i64) (rw name refl)
          (rw (full, to_json) (rw name refl)) (integer-Read v.decode_i64 refl)

    named_boolean : text_eq v.type_name (codes "BOOLEAN") ≡ true → Typed
    unfolding to_json find text_eq
    named_boolean e =
        let name = text_eq→≡ v.type_name (codes "BOOLEAN") e in
        typed booleans (or_null bool v.decode_bool) (rw name refl)
          (rw (full, to_json) (rw name refl)) (boolean-Read v.decode_bool refl)

    named_date : text_eq v.type_name (codes "DATE") ≡ true → Typed
    unfolding to_json find text_eq
    named_date e =
        let name = text_eq→≡ v.type_name (codes "DATE") e in
        typed strings (or_null string v.decode_string) (rw name refl)
          (rw (full, to_json) (rw name refl)) (string-Read v.decode_string refl)

    named_time : text_eq v.type_name (codes "TIME") ≡ true → Typed
    unfolding to_json find text_eq
    named_time e =
        let name = text_eq→≡ v.type_name (codes "TIME") e in
        typed strings (or_null string v.decode_string) (rw name refl)
          (rw (full, to_json) (rw name refl)) (string-Read v.decode_string refl)

    named_datetime : text_eq v.type_name (codes "DATETIME") ≡ true → Typed
    unfolding to_json find text_eq
    named_datetime e =
        let name = text_eq→≡ v.type_name (codes "DATETIME") e in
        typed datetimes
          (elim v.decode_datetime [ some dt ↦ string dt | none ↦ or_null string v.decode_string ])
          (rw name refl) (rw (full, to_json) (rw name refl))
          (datetime-Read v.decode_datetime v.decode_string refl refl)

    named_blob : text_eq v.type_name (codes "BLOB") ≡ true → Typed
    unfolding to_json find text_eq
    named_blob e =
        let name = text_eq→≡ v.type_name (codes "BLOB") e in
        typed blobs (or_null (λ b. string (encode b)) v.decode_bytes) (rw name refl)
          (rw (full, to_json) (rw name refl)) (blob-Read v.decode_bytes refl)

    named_null : text_eq v.type_name (codes "NULL") ≡ true → Typed
    unfolding to_json find text_eq
    named_null e =
        let name = text_eq→≡ v.type_name (codes "NULL") e in
        typed nulls (null) (rw name refl) (rw (full, to_json) (rw name refl)) (rw full refl)

    -- A name that `to_json` does not know.
    module _ (not_text : text_eq v.type_name (codes "TEXT") ≡ false)
        (not_real : text_eq v.type_name (codes "REAL") ≡ false)
        (not_integer : text_eq v.type_name (codes "INTEGER") ≡ false)
        (not_numeric : text_eq v.type_name (codes "NUMERIC") ≡ false)
        (not_boolean : text_eq v.type_name (codes "BOOLEAN") ≡ false)
        (not_date : text_eq v.type_name (codes "DATE") ≡ false)
        (not_time : text_eq v.type_name (codes "TIME") ≡ false)
        (not_datetime : text_eq v.type_name (codes "DATETIME") ≡ false)
        (not_blob : text_eq v.type_name (codes "BLOB") ≡ false)
        (not_null : text_eq v.type_name (codes "NULL") ≡ false) where
      unknown : find v.type_name named_types ≡ none
      unfolding find
      unknown =
          rw
            (
              text_eq_comm (codes "TEXT") v.type_name,
              not_text,
              text_eq_comm (codes "REAL") v.type_name,
              not_real,
              text_eq_comm (codes "INTEGER") v.type_name,
              not_integer,
              text_eq_comm (codes "NUMERIC") v.type_name,
              not_numeric,
              text_eq_comm (codes "BOOLEAN") v.type_name,
              not_boolean,
              text_eq_comm (codes "DATE") v.type_name,
              not_date,
              text_eq_comm (codes "TIME") v.type_name,
              not_time,
              text_eq_comm (codes "DATETIME") v.type_name,
              not_datetime,
              text_eq_comm (codes "BLOB") v.type_name,
              not_blob,
              text_eq_comm (codes "NULL") v.type_name,
              not_null,
            )
            refl

      otherwise :
          (r : Result Error Json) → to_json encode from_f64 v ≡ r → Read from_f64 v none r → Typed
      otherwise r is h =
          subst (λ o. Read from_f64 v o (to_json encode from_f64 v)) (sym unknown)
            (subst (Read from_f64 v none) (sym is) h)

      as_text : Result Error Json
      as_text = elim v.decode_string [
        | some text ↦ ok (string text)
        | none ↦ err (unsupported_datatype (codes "Unknown SQLite type: " ++ v.type_name))
      ]

      to_json-as_text : to_json encode from_f64 v ≡ as_text
      unfolding to_json as_text
      to_json-as_text =
          rw (full, to_json)
            (rw
              (
                not_text, not_real, not_integer, not_numeric, not_boolean, not_date, not_time,
                not_datetime, not_blob, not_null,
              )
              refl)

      named_otherwise : Typed
      unfolding as_text
      named_otherwise = elim (Option-cases v.decode_string) [
        | inl e ↦
            otherwise (err (unsupported_datatype (codes "Unknown SQLite type: " ++ v.type_name)))
              (to_json-as_text ∙ rw e refl) (full, e, refl)
        | inr (s, e) ↦ otherwise (ok (string s)) (to_json-as_text ∙ rw e refl) (full, e)
      ]

    named : Typed
    named = elim (Bool-cases (text_eq v.type_name (codes "TEXT"))) [
      | inl e ↦ named_text e
      | inr not_text ↦ elim (Bool-cases (text_eq v.type_name (codes "REAL"))) [
        | inl e ↦ named_real e
        | inr not_real ↦ elim (Bool-cases (text_eq v.type_name (codes "INTEGER"))) [
          | inl e ↦ named_integer e
          | inr not_integer ↦ elim (Bool-cases (text_eq v.type_name (codes "NUMERIC"))) [
            | inl e ↦ named_numeric e
            | inr not_numeric ↦ elim (Bool-cases (text_eq v.type_name (codes "BOOLEAN"))) [
              | inl e ↦ named_boolean e
              | inr not_boolean ↦ elim (Bool-cases (text_eq v.type_name (codes "DATE"))) [
                | inl e ↦ named_date e
                | inr not_date ↦ elim (Bool-cases (text_eq v.type_name (codes "TIME"))) [
                  | inl e ↦ named_time e
                  | inr not_time ↦ elim (Bool-cases (text_eq v.type_name (codes "DATETIME"))) [
                    | inl e ↦ named_datetime e
                    | inr not_datetime ↦ elim (Bool-cases (text_eq v.type_name (codes "BLOB"))) [
                      | inl e ↦ named_blob e
                      | inr not_blob ↦ elim (Bool-cases (text_eq v.type_name (codes "NULL"))) [
                        | inl e ↦ named_null e
                        | inr not_null ↦
                            named_otherwise not_text not_real not_integer not_numeric not_boolean
                              not_date not_time not_datetime not_blob not_null
                      ]
                    ]
                  ]
                ]
              ]
            ]
          ]
        ]
      ]
    ]

  -- For a value of a type that it knows by name, `to_json` gives no error: it gives null exactly for
  -- NULL and for a value that cannot be read, and else a value of the type of JSON that goes with
  -- the name. For any other type it gives null for NULL, the text if the value decodes as text, and
  -- an error exactly if it does not. This supposes that sqlx decodes integers to integers of JSON,
  -- and that serde_json makes a float of a float, or null.
  pub to_json-HasType : Typed
  unfolding to_json
  to_json-HasType = elim (Bool-cases v.is_null) [
    | inl e ↦
        let is : to_json encode from_f64 v ≡ ok null = rw (e, to_json) refl in
        subst (HasType from_f64 v) (sym is) (null-Read e (find v.type_name named_types))
    | inr e ↦ named e
  ]
