-- ===== src/Observer/Hooks/Keys.antt =====
-- The key of a change, against what SQLite says of the row.
use tauri_plugin_sqlite.Prelude.{
  ℕ, zero, suc, ◌+◌, ◌≡◌, ◌↔◌, refl, sym, ap, ◌∙◌, inl, inr, true, false, List, [], ◌∷◌, map,
  Option, none, some, arith, Text, get_elem?, ltb, if◌then◌else◌, ok, Bool-cases, cons-injective,
}
use mathlib.Core.Path.{fun_ext}
use tauri_plugin_sqlite.Observer.Broker.{
  SqliteValue, null, integer, real, text, blob, ColumnValue, column_null, column_integer,
  column_real, column_text, column_blob, column_value, ChangeOperation, insert, update, delete,
  TableInfo, map_option, key_row, extract_primary_key,
}
use tauri_plugin_sqlite.Observer.Broker.PrimaryKey.{extract_primary_key-at_columns}
use tauri_plugin_sqlite.Observer.Hooks.{PreUpdate, event_of, capture}

-- The value that a value of a change stands for.
abbrev pub sqlite_value : ColumnValue → SqliteValue
sqlite_value column_null = null
sqlite_value (column_integer i) = integer i
sqlite_value (column_real r) = real r
sqlite_value (column_text s) = text s
sqlite_value (column_blob b) = blob b

-- A value that SQLite does not give counts as NULL.
abbrev pub value_or_null : Option SqliteValue → SqliteValue
value_or_null none = null
value_or_null (some v) = v

-- What SQLite says of a row, which is the old one only where it goes.
abbrev pub announced : PreUpdate → ChangeOperation → ℕ → Option SqliteValue
announced p insert i = p.new_value i
announced p update i = p.new_value i
announced p delete i = p.old_value i

-- The value of a column, if the table has that many.
abbrev pub told : PreUpdate → ChangeOperation → ℕ → ℕ → Option SqliteValue
told p operation n i = if ltb i n then some (value_or_null (announced p operation i)) else none

ltb_zero : (i : ℕ) → ltb i 0 ≡ false
ltb_zero i = ground arith

ltb_positive : (n : ℕ) → ltb 0 (suc n) ≡ true
ltb_positive n = ground arith

ltb-suc : (i n : ℕ) → ltb (suc i) (suc n) ≡ ltb i n
ltb-suc i n = elim (Bool-cases (ltb i n)) [ inl e ↦ (ground arith) | inr e ↦ (ground arith) ]

module _ (value : ℕ → Option SqliteValue) where
  get_elem?-capture :
      (n s i : ℕ)
      → get_elem? (capture n s value) i
        ≡ (if ltb i n then some (value_or_null (value (s + i))) else none)
  unfolding capture
  get_elem?-capture zero s i = rw (ltb_zero i) refl
  get_elem?-capture (suc n) s zero =
      rw (ltb_positive n) (ap (λ k. some (value_or_null (value k))) (omega arith))
  get_elem?-capture (suc n) s (suc i) =
      get_elem?-capture n (suc s) i
      ∙ ap (λ k. if ltb i n then some (value_or_null (value k)) else none) (omega arith)
      ∙ ap (λ b. if b then some (value_or_null (value (s + suc i))) else none) (sym (ltb-suc i n))

sqlite_value-column_value : (v : SqliteValue) → sqlite_value (column_value v) ≡ v
unfolding column_value
sqlite_value-column_value null = refl
sqlite_value-column_value (integer i) = refl
sqlite_value-column_value (real r) = refl
sqlite_value-column_value (text s) = refl
sqlite_value-column_value (blob b) = refl

column_value-sqlite_value : (c : ColumnValue) → column_value (sqlite_value c) ≡ c
unfolding column_value
column_value-sqlite_value column_null = refl
column_value-sqlite_value (column_integer i) = refl
column_value-sqlite_value (column_real r) = refl
column_value-sqlite_value (column_text s) = refl
column_value-sqlite_value (column_blob b) = refl

some-injective : {A : Type 0} (a b : A) → ◌≡◌ {A = Option A} (some a) (some b) → a ≡ b
some-injective a b h = cc

map_option-sqlite_value :
    (o : Option SqliteValue) → map_option sqlite_value (map_option column_value o) ≡ o
map_option-sqlite_value none = refl
map_option-sqlite_value (some v) = ap some (sqlite_value-column_value v)

module _ (g : ℕ → Option SqliteValue) where
  read_columns :
      (columns : List ℕ) (pk : List ColumnValue)
      → (map (λ i. map_option column_value (g i)) columns ≡ map some pk)
        ↔ (map g columns ≡ map (λ c. some (sqlite_value c)) pk)
  read_columns [] [] = (λ h. refl, λ h. refl)
  read_columns [] (c ∷ pk) = (λ h. absurd cc, λ h. absurd cc)
  read_columns (i ∷ columns) [] = (λ h. absurd cc, λ h. absurd cc)
  read_columns (i ∷ columns) (c ∷ pk) = (
    λ h.
        let (first, later) =
          cons-injective (map_option column_value (g i)) (some c)
            (map (λ k. map_option column_value (g k)) columns) (map some pk) h in
        both (sym (map_option-sqlite_value (g i)) ∙ ap (map_option sqlite_value) first)
          ((read_columns columns pk).0 later),
    λ h.
        let (first, later) =
          cons-injective (g i) (some (sqlite_value c)) (map g columns)
            (map (λ k. some (sqlite_value k)) pk) h in
        both (ap (map_option column_value) first ∙ ap some (column_value-sqlite_value c))
          ((read_columns columns pk).1 later),
  )
    where
      both : {A : Type 0} {a b : A} {xs ys : List A} → a ≡ b → xs ≡ ys → a ∷ xs ≡ b ∷ ys
      both e f = cc

module _ (p : PreUpdate) (table : Text) (n : ℕ) where
  row_of : ChangeOperation → List SqliteValue
  row_of operation = capture n 0 (announced p operation)

  event_of-row_of :
      (operation : ChangeOperation)
      → key_row (event_of p table operation n) ≡ some (row_of operation)
  unfolding key_row row_of
  event_of-row_of insert = refl
  event_of-row_of update = refl
  event_of-row_of delete = refl

  told-row_of : (operation : ChangeOperation) → get_elem? (row_of operation) ≡ told p operation n
  unfolding row_of
  told-row_of operation = fun_ext (λ i.
      get_elem?-capture (announced p operation) n 0 i
      ∙ ap (λ k. if ltb i n then some (value_or_null (announced p operation k)) else none)
          (omega arith))

  -- The key of a change to a table of `n` columns whose schema is known, as its event is captured: it
  -- is extracted exactly if the table has each of the key's columns, and it is then, in the key's
  -- order, what SQLite says of them, in the old row for a deletion and in the new one for an
  -- insertion or an update; a value that SQLite does not give counts as NULL.
  pub extract_primary_key-event_of_iff :
      (operation : ChangeOperation) (info : TableInfo) (pk : List ColumnValue)
      → (extract_primary_key (event_of p table operation n) (some info) ≡ ok pk)
        ↔ (map (told p operation n) info.pk_columns ≡ map (λ c. some (sqlite_value c)) pk)
  extract_primary_key-event_of_iff operation info pk =
      let row = row_of operation in
      let extracted =
        extract_primary_key-at_columns (event_of p table operation n) info row pk
          (event_of-row_of operation) in
      let read = read_columns (get_elem? row) info.pk_columns pk in
      let same = ap (λ g. map g info.pk_columns) (told-row_of operation) in
      (λ h. sym same ∙ read.0 (extracted.0 h), λ h. extracted.1 (read.1 (same ∙ h)))
