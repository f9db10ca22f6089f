-- ===== src/Toolkit/Pagination/Query/Statement.antt =====
-- The statement that `build_paginated_query` writes, as data, and its text.
use tauri_plugin_sqlite.Prelude.{
  ℕ, suc, ◌+◌, ◌<◌, ◌≡◌, refl, ap, ◌∙◌, Bool, true, false, List, [], ◌∷◌, ◌++◌, map, Option, none,
  some, Text, codes, join, decimal, length, if◌then◌else◌, Result, ok, lt→ltb,
}
use tauri_plugin_sqlite.Toolkit.{Error}
use tauri_plugin_sqlite.Toolkit.Row.{Row}
use tauri_plugin_sqlite.Toolkit.Pagination.{KeysetColumn, reversed_keyset}
use tauri_plugin_sqlite.Toolkit.Pagination.Identifiers.{quote_identifier}
use tauri_plugin_sqlite.Toolkit.Pagination.Scan.{validate_base_query, has_top_level_where}
use tauri_plugin_sqlite.Toolkit.Pagination.Condition.Sql.{
  Condition, condition_text, Order, condition_holds, comes_after,
}
use tauri_plugin_sqlite.Toolkit.Pagination.Condition.Meaning.{build_cursor_condition-Selects}
use tauri_plugin_sqlite.Toolkit.Pagination.Query.{
  direction_text, build_order_by, trim_base, validate_columns, add_cursor, finish_query,
  build_paginated_query, usize_max, checked_add_one,
}

pub record PageStatement : Type 0 where
  pub base : Text
  pub condition : Option Condition
  pub order : List KeysetColumn
  pub limit : ℕ

-- A condition is joined to the WHERE clause of the base query, if that has one.
abbrev pub where_text : Text → Option Condition → Text
where_text base none = base
where_text base (some c) =
    if has_top_level_where base
    then base ++ (codes " AND (" ++ (condition_text c ++ codes ")"))
    else base ++ (codes " WHERE (" ++ (condition_text c ++ codes ")"))

abbrev order_text : KeysetColumn → Text
order_text k = quote_identifier k.name ++ (codes " " ++ direction_text k.direction)

pub statement_text : PageStatement → Text
statement_text s =
    where_text s.base s.condition
    ++ (codes " "
        ++ ((codes "ORDER BY " ++ join (codes ", ") (map order_text s.order))
            ++ (codes " LIMIT " ++ decimal s.limit)))

-- Rows that a statement with this condition lets through.
abbrev pub passes : {V : Type 0} → Order V → List V → Option Condition → Row V → Bool
passes o binds none row = true
passes o binds (some c) row = condition_holds o binds row c

-- The rows that a page with this cursor may hold.
abbrev pub within : {V : Type 0} → Order V → List KeysetColumn → Option (List V) → Row V → Bool
within o ks none row = true
within o ks (some vs) row = comes_after o ks vs row

-- As many cursor values as columns, where there is a cursor.
abbrev pub Fits : {V : Type 0} → List KeysetColumn → Option (List V) → Type 0
Fits ks none = Unit
Fits ks (some vs) = length ks ≡ length vs

abbrev pub effective : Bool → List KeysetColumn → List KeysetColumn
effective backward ks = if backward then reversed_keyset ks else ks

-- The text is that of the statement over the trimmed base query, in this order and with this
-- limit, whose condition lets exactly the rows behind the cursor through.
pub record Builds {V : Type 0} (base : Text) (order : List KeysetColumn) (cursor : Option (List V))
    (limit : ℕ) (user : List V) (built : Result Error (Option (Text × List V))) : Type 0 where
  pub condition : Option Condition
  pub values : List V
  pub built_as :
      built
      ≡ ok (
          some (
            statement_text (record {
              base = trim_base base;
              condition = condition;
              order = order;
              limit = limit;
            }),
            values,
          ))
  pub passes_iff :
      (o : Order V) (row : Row V)
      → passes o (user ++ values) condition row ≡ within o order cursor row

length-reversed_keyset : (ks : List KeysetColumn) → length (reversed_keyset ks) ≡ length ks
unfolding reversed_keyset
length-reversed_keyset [] = refl
length-reversed_keyset (k ∷ ks) = ap suc (length-reversed_keyset ks)

Fits-effective :
    {V : Type 0} (backward : Bool) (ks : List KeysetColumn) (cursor : Option (List V))
    → Fits ks cursor
    → Fits (effective backward ks) cursor
Fits-effective false ks cursor h = h
Fits-effective true ks none h = tt
Fits-effective true ks (some vs) h = length-reversed_keyset ks ∙ h

checked_add_one_lem : (n : ℕ) → n < usize_max → checked_add_one n ≡ some (n + 1)
unfolding checked_add_one
checked_add_one_lem n h = rw (lt→ltb n usize_max h)

module _ {V : Type 0} (base : Text) (page_size : ℕ) (user : List V)
    (room : page_size < usize_max) where
  finish-Builds :
      (order : List KeysetColumn) (cursor : Option (List V))
      → Fits order cursor
      → Builds base order cursor
          (page_size + 1)
          user
          (finish_query order page_size (add_cursor (trim_base base) order cursor (length user)))
  unfolding finish_query add_cursor build_order_by statement_text
  finish-Builds order none fits = record {
    condition = none;
    values = [];
    built_as = rw (checked_add_one_lem page_size room);
    passes_iff = λ o row. refl;
  }
  finish-Builds order (some vs) fits =
      let sel = build_cursor_condition-Selects order vs user fits in
      record {
        condition = some sel.condition;
        values = sel.values;
        built_as = rw (sel.built_as, add_cursor) (rw (checked_add_one_lem page_size room));
        passes_iff = sel.holds;
      }

  pub build_paginated_query-Builds :
      (ks : List KeysetColumn) (cursor : Option (List V)) (backward : Bool)
      → validate_base_query base ≡ ok tt
      → validate_columns ks ≡ ok tt
      → Fits ks cursor
      → Builds base
          (effective backward ks)
          cursor
          (page_size + 1)
          user
          (build_paginated_query base ks cursor page_size backward (length user))
  unfolding build_paginated_query
  build_paginated_query-Builds ks cursor backward valid_base valid_columns fits =
      rw (valid_base, valid_columns)
        (finish-Builds (effective backward ks) cursor (Fits-effective backward ks cursor fits))
