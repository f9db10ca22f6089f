-- ===== src/Observer/Broker/PrimaryKey.antt =====
-- The key of a change is made of the row's values at the key's columns.
use tauri_plugin_sqlite.Prelude.{
  ℕ, ◌≡◌, ◌↔◌, refl, sym, ap, ◌∙◌, inl, inr, List, [], ◌∷◌, map, Option, none, some, Text, length,
  get_elem?, is_empty, if◌then◌else◌, ok, err, ok-injective, Result-cases, Option-cases,
  cons-injective,
}
use tauri_plugin_sqlite.Observer.{ObserverError, schema_mismatch}
use tauri_plugin_sqlite.Observer.Broker.{
  SqliteValue, ColumnValue, column_value, TableInfo, PreUpdateEvent, map_option, key_row, pick,
  extract_primary_key,
}

-- The values at these columns, where the row has them.
abbrev pub at_columns : List SqliteValue → List ℕ → List (Option ColumnValue)
at_columns values = map (λ i. map_option column_value (get_elem? values i))

module _ (table : Text) (expected : ℕ) (values : List SqliteValue) where
  pick-at_columns :
      (columns : List ℕ) (pk : List ColumnValue)
      → pick table expected values columns ≡ ok pk
      → at_columns values columns ≡ map some pk
  unfolding pick
  pick-at_columns [] pk h = ap (map some) (ok-injective [] pk h)
  pick-at_columns (i ∷ columns) pk h = elim (Option-cases (get_elem? values i)) [
    | inl e ↦ absurd (absent e)
    | inr (v, e) ↦ elim (Result-cases (pick table expected values columns)) [
      | inl (rest, f) ↦ rw e (
          ap (λ l. some (column_value v) ∷ l) (pick-at_columns columns rest f)
          ∙ ap (map some) (ok-injective (column_value v ∷ rest) pk (sym (rw (e, f) refl) ∙ h)))
      | inr (x, f) ↦ absurd (failed v x e f)
    ]
  ]
    where
      absent : get_elem? values i ≡ none → ⊥
      absent e =
          let r : pick table expected values (i ∷ columns)
              ≡ err (schema_mismatch table expected (length values)) =
            rw e refl in
          cc

      failed :
          (v : SqliteValue) (x : ObserverError)
          → get_elem? values i ≡ some v
          → pick table expected values columns ≡ err x
          → ⊥
      failed v x e f =
          let r : pick table expected values (i ∷ columns) ≡ err x = rw (e, f) refl in cc

  at_columns-pick :
      (columns : List ℕ) (pk : List ColumnValue)
      → at_columns values columns ≡ map some pk
      → pick table expected values columns ≡ ok pk
  unfolding pick
  at_columns-pick [] [] h = refl
  at_columns-pick [] (x ∷ pk) h = cc
  at_columns-pick (i ∷ columns) [] h = cc
  at_columns-pick (i ∷ columns) (x ∷ pk) h =
      let (head, tail) =
        cons-injective (map_option column_value (get_elem? values i)) (some x)
          (at_columns values columns) (map some pk) h in
      elim (Option-cases (get_elem? values i)) [
        | inl e ↦
            absurd
              (let q : ◌≡◌ {A = Option ColumnValue} none (some x) = sym (rw e refl) ∙ head in cc)
        | inr (v, e) ↦
            let here : ◌≡◌ {A = Option ColumnValue} (some (column_value v)) (some x) =
              sym (rw e refl) ∙ head in
            rw (e, at_columns-pick columns pk tail) (ap (λ y. ok (y ∷ pk)) cc)
      ]

-- For an event whose row is there and a table whose schema is known.
pub extract_primary_key-at_columns :
    (event : PreUpdateEvent) (info : TableInfo) (values : List SqliteValue) (pk : List ColumnValue)
    → key_row event ≡ some values
    → (extract_primary_key event (some info) ≡ ok pk)
      ↔ (at_columns values info.pk_columns ≡ map some pk)
unfolding extract_primary_key
extract_primary_key-at_columns event info values pk row = rw row (both info.pk_columns)
  where
    both :
        (columns : List ℕ)
        → ((if is_empty columns
              then ok []
              else pick event.table (length info.pk_columns) values columns)
            ≡ ok pk)
          ↔ (at_columns values columns ≡ map some pk)
    both [] = (
      pick-at_columns event.table (length info.pk_columns) values [] pk,
      at_columns-pick event.table (length info.pk_columns) values [] pk,
    )
    both (i ∷ columns) = (
      pick-at_columns event.table (length info.pk_columns) values (i ∷ columns) pk,
      at_columns-pick event.table (length info.pk_columns) values (i ∷ columns) pk,
    )
