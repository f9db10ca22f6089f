-- ===== src/Toolkit/Pagination/Condition/Meaning.antt =====
-- `build_cursor_condition` builds the text of a condition, and values to bind, under which SQLite
-- selects the rows behind the cursor.
use tauri_plugin_sqlite.Prelude.{
  ℕ, ◌+◌, ◌≡◌, refl, ap, inl, inr, true, false, List, [], ◌∷◌, ◌++◌, map, Option, some, arith, Text,
  codes, join, length, all, Bool-cases,
}
use tauri_plugin_sqlite.Toolkit.Row.{Row}
use tauri_plugin_sqlite.Toolkit.Pagination.{SortDirection, ascending, descending, KeysetColumn}
use tauri_plugin_sqlite.Toolkit.Pagination.Identifiers.{quote_identifier}
use tauri_plugin_sqlite.Toolkit.Pagination.Condition.{
  is_ascending, is_descending, placeholders, build_cursor_condition,
}
use tauri_plugin_sqlite.Toolkit.Pagination.Condition.Sql.{
  Op, gt, lt, op_text, Condition, row_value, any_of, condition_text, Order, condition_holds,
  comes_after,
}
use tauri_plugin_sqlite.Toolkit.Pagination.Condition.Levels.{
  op_of, levels, level_values, level_clauses_lem, any-levels-comes_after,
}
use tauri_plugin_sqlite.Toolkit.Pagination.Condition.Uniform.{
  Uniform, params_from, placeholders_lem, row_value_holds-comes_after,
}

-- The text and the values are those of a condition that holds, with the values bound behind those
-- of the user, of exactly the rows behind the cursor.
pub record Selects {V : Type 0} (ks : List KeysetColumn) (vs user : List V)
    (built : Option (Text × List V)) : Type 0 where
  pub condition : Condition
  pub values : List V
  pub built_as : built ≡ some (condition_text condition, values)
  pub holds :
      (o : Order V) (row : Row V)
      → condition_holds o (user ++ values) row condition ≡ comes_after o ks vs row

map-map :
    {A B C : Type 0} (f : A → B) (g : B → C) (l : List A) → map g (map f l) ≡ map (λ a. g (f a)) l
map-map f g [] = refl
map-map f g (a ∷ l) = ap (◌∷◌ (g (f a))) (map-map f g l)

all_ascending-Uniform : (ks : List KeysetColumn) → all is_ascending ks ≡ true → Uniform ascending ks
all_ascending-Uniform [] h = tt
all_ascending-Uniform (k ∷ ks) h = (ground arith, all_ascending-Uniform ks (ground arith))

all_descending-Uniform :
    (ks : List KeysetColumn) → all is_descending ks ≡ true → Uniform descending ks
all_descending-Uniform [] h = tt
all_descending-Uniform (k ∷ ks) h = (ground arith, all_descending-Uniform ks (ground arith))

abbrev names : List KeysetColumn → List Text
names = map (λ (k : KeysetColumn). k.name)

-- The text of the row-value form.
row_value_text :
    (ks : List KeysetColumn) (op : Op) (param : ℕ)
    → condition_text (row_value (names ks) op (params_from (length ks) param))
      ≡ codes "("
        ++ (join (codes ", ") (map (λ (k : KeysetColumn). quote_identifier k.name) ks)
            ++ (codes ") "
                ++ (op_text op
                    ++ (codes " ("
                        ++ (join (codes ", ") (placeholders (length ks) param) ++ codes ")")))))
unfolding condition_text
row_value_text ks op param =
    rw (
      map-map (λ (k : KeysetColumn). k.name) quote_identifier ks,
      placeholders_lem (length ks) param,
    )

module _ {V : Type 0} (ks : List KeysetColumn) (vs user : List V)
    (same : length ks ≡ length vs) where
  Uniform-Selects :
      (d : SortDirection)
      → Uniform d ks
      → build_cursor_condition ks vs (length user)
        ≡ some (
          condition_text
              (row_value (names ks) (op_of d) (params_from (length ks) (length user + 1))),
          vs,
        )
      → Selects ks vs user (build_cursor_condition ks vs (length user))
  Uniform-Selects d u e = record {
    condition = row_value (names ks) (op_of d) (params_from (length ks) (length user + 1));
    values = vs;
    built_as = e;
    holds = λ o row.
        unfold condition_holds in
        row_value_holds-comes_after o row d ks vs user (length user + 1) u same refl;
  }

  ascending-Selects :
      all is_ascending ks ≡ true → Selects ks vs user (build_cursor_condition ks vs (length user))
  unfolding build_cursor_condition
  ascending-Selects h =
      Uniform-Selects ascending (all_ascending-Uniform ks h)
        (rw (h, row_value_text ks gt (length user + 1)))

  descending-Selects :
      all is_ascending ks ≡ false
      → all is_descending ks ≡ true
      → Selects ks vs user (build_cursor_condition ks vs (length user))
  unfolding build_cursor_condition
  descending-Selects a h =
      Uniform-Selects descending (all_descending-Uniform ks h)
        (rw (a, h, row_value_text ks lt (length user + 1)))

  mixed-Selects :
      all is_ascending ks ≡ false
      → all is_descending ks ≡ false
      → Selects ks vs user (build_cursor_condition ks vs (length user))
  unfolding build_cursor_condition condition_text
  mixed-Selects a d = record {
    condition = any_of (levels ks (length ks) 0 (length user + 1));
    values = level_values vs (length ks) 0;
    built_as =
        rw (a, d) (rw (level_clauses_lem ks vs (length ks) 0 (length user + 1) same (omega arith)));
    holds = λ o row.
        unfold condition_holds in
        any-levels-comes_after o row ks vs user (length user + 1) same refl;
  }

  -- With as many cursor values as keyset columns, `build_cursor_condition` does not panic, and
  -- builds the SQL text of a condition and the values to bind behind the user's; with them bound,
  -- the condition holds of a row exactly if the row stands behind the cursor in the lexicographic
  -- order of the keyset's columns and directions. So it is for both forms of the condition, for
  -- all directions and for any comparison of values.
  pub build_cursor_condition-Selects :
      Selects ks vs user (build_cursor_condition ks vs (length user))
  build_cursor_condition-Selects = elim (Bool-cases (all is_ascending ks)) [
    | inl a ↦ ascending-Selects a
    | inr a ↦ elim (Bool-cases (all is_descending ks)) [
      | inl d ↦ descending-Selects a d
      | inr d ↦ mixed-Selects a d
    ]
  ]
