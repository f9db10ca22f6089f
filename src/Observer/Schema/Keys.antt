-- ===== src/Observer/Schema/Keys.antt =====
-- The columns of a key come in the order of the key.
use mathlib.Core.List.{perm_middle}
use mathlib.Core.List.Perm
use tauri_plugin_sqlite.Prelude.{
  ◌≤◌, ◌<◌, ◌≡◌, refl, inl, inr, List, [], ◌∷◌, ◌++◌, map, some, arith, All, All-imp, Perm, ltb,
  ltb→lt, ltb→le, Bool-cases, if◌then◌else◌, ok,
}
use tauri_plugin_sqlite.Observer.Schema.{
  ColumnRow, in_key, insert_by_pk, sort_by_pk, column_index, query_pk_columns,
}

-- No position is before that of an earlier row.
abbrev pub Ordered : List ColumnRow → Type 0
Ordered [] = Unit
Ordered (r ∷ rows) = All (λ (s : ColumnRow). r.pk ≤ s.pk) rows × Ordered rows

insert_by_pk-All :
    (P : ColumnRow → Type 0) (row : ColumnRow) (rows : List ColumnRow)
    → P row
    → All P rows
    → All P (insert_by_pk row rows)
unfolding insert_by_pk
insert_by_pk-All P row [] p h = (p, tt)
insert_by_pk-All P row (r ∷ rows) p h = elim (Bool-cases (ltb r.pk row.pk)) [
  | inl e ↦ rw e (h.0, insert_by_pk-All P row rows p h.1)
  | inr e ↦ rw e (p, h)
]

insert_by_pk-Ordered :
    (row : ColumnRow) (rows : List ColumnRow) → Ordered rows → Ordered (insert_by_pk row rows)
unfolding insert_by_pk
insert_by_pk-Ordered row [] h = (tt, tt)
insert_by_pk-Ordered row (r ∷ rows) h = elim (Bool-cases (ltb r.pk row.pk)) [
  | inl e ↦ rw e (
    insert_by_pk-All (λ s. r.pk ≤ s.pk) row rows (let lt = ltb→lt r.pk row.pk e in omega arith) h.0,
    insert_by_pk-Ordered row rows h.1,
  )
  | inr e ↦ let le = ltb→le r.pk row.pk e in rw e ((le, All-imp rows (λ s k. omega arith) h.0), h)
]

sort_by_pk-Ordered : (rows : List ColumnRow) → Ordered (sort_by_pk rows)
unfolding sort_by_pk
sort_by_pk-Ordered [] = tt
sort_by_pk-Ordered (r ∷ rows) = insert_by_pk-Ordered r (sort_by_pk rows) (sort_by_pk-Ordered rows)

insert_by_pk-Perm :
    (row : ColumnRow) (rows : List ColumnRow) → Perm (insert_by_pk row rows) (row ∷ rows)
unfolding insert_by_pk
insert_by_pk-Perm row [] = Perm.refl (row ∷ [])
insert_by_pk-Perm row (r ∷ rows) = elim (Bool-cases (ltb r.pk row.pk)) [
  | inl e ↦ rw e (Perm.trans (Perm.cons r (insert_by_pk-Perm row rows)) (Perm.swap row r rows))
  | inr e ↦ rw e (Perm.refl (row ∷ r ∷ rows))
]

sort_by_pk-Perm : (rows : List ColumnRow) → Perm (sort_by_pk rows) rows
unfolding sort_by_pk
sort_by_pk-Perm [] = Perm.refl []
sort_by_pk-Perm (r ∷ rows) =
    Perm.trans (insert_by_pk-Perm r (sort_by_pk rows)) (Perm.cons r (sort_by_pk-Perm rows))

-- The rows of the columns outside of the key.
outside : List ColumnRow → List ColumnRow
outside [] = []
outside (row ∷ rows) = let rest = outside rows in if ltb 0 row.pk then rest else row ∷ rest

-- `rows` are those of the key and the others.
in_key-outside-Perm : (rows : List ColumnRow) → Perm (in_key rows ++ outside rows) rows
unfolding in_key outside
in_key-outside-Perm [] = Perm.refl []
in_key-outside-Perm (r ∷ rows) = elim (Bool-cases (ltb 0 r.pk)) [
  | inl e ↦ rw e (Perm.cons r (in_key-outside-Perm rows))
  | inr e ↦ rw e (
      Perm.trans (perm_middle (in_key rows) (outside rows))
        (Perm.cons r (in_key-outside-Perm rows)))
]

in_key-All : (rows : List ColumnRow) → All (λ r. 0 < r.pk) (in_key rows)
unfolding in_key
in_key-All [] = tt
in_key-All (r ∷ rows) = elim (Bool-cases (ltb 0 r.pk)) [
  | inl e ↦ rw e (ltb→lt 0 r.pk e, in_key-All rows)
  | inr e ↦ rw e (in_key-All rows)
]

outside-All : (rows : List ColumnRow) → All (λ r. r.pk ≡ 0) (outside rows)
unfolding outside
outside-All [] = tt
outside-All (r ∷ rows) = elim (Bool-cases (ltb 0 r.pk)) [
  | inl e ↦ rw e (outside-All rows)
  | inr e ↦ rw e (let le = ltb→le 0 r.pk e in (omega arith), outside-All rows)
]

sort_by_pk-All :
    (P : ColumnRow → Type 0) (rows : List ColumnRow) → All P rows → All P (sort_by_pk rows)
unfolding sort_by_pk
sort_by_pk-All P [] h = tt
sort_by_pk-All P (r ∷ rows) h =
    insert_by_pk-All P r (sort_by_pk rows) h.0 (sort_by_pk-All P rows h.1)

-- The key of a table: `rows` is made of its columns, in the order of their positions, and others.
pub record IsKeyOf (key others rows : List ColumnRow) : Type 0 where
  pub made_of : Perm (key ++ others) rows
  pub in_order : Ordered key
  pub with_position : All (λ (r : ColumnRow). 0 < r.pk) key
  pub without_position : All (λ (r : ColumnRow). r.pk ≡ 0) others

-- For a table, which has a column, `query_pk_columns` gives the indices of the columns with a
-- position in the key and of no others, each once, in the order of their positions.
pub query_pk_columns-IsKeyOf :
    (row : ColumnRow) (rows : List ColumnRow)
    → (key others : List ColumnRow) × (query_pk_columns (ok (row ∷ rows))
        ≡ ok (some (map column_index key)))
      × IsKeyOf key others (row ∷ rows)
unfolding query_pk_columns
query_pk_columns-IsKeyOf row rows =
    let inside = in_key (row ∷ rows) in
    (
      sort_by_pk inside,
      outside (row ∷ rows),
      refl,
      record {
        made_of =
            Perm.trans (Perm.append_right (outside (row ∷ rows)) (sort_by_pk-Perm inside))
              (in_key-outside-Perm (row ∷ rows));
        in_order = sort_by_pk-Ordered inside;
        with_position = sort_by_pk-All (λ r. 0 < r.pk) inside (in_key-All (row ∷ rows));
        without_position = outside-All (row ∷ rows);
      },
    )
