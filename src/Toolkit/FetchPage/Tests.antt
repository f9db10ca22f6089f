-- ===== src/Toolkit/FetchPage/Tests.antt =====
-- A table of three rows, the theorems at it, and runs of the builder.
use tauri_plugin_sqlite.Prelude.{
  is_ascii_alphabetic, is_ascii_alphanumeric, ℕ, ◌≡◌, refl, sym, ap, ◌∙◌, true, false, List, [],
  ◌∷◌, reverse, Option, none, some, arith, Text, codes, take, ltb, ◌==◌, Result, ok, err, text_eq,
  split,
}
use tauri_plugin_sqlite.Toolkit.{Error}
use tauri_plugin_sqlite.Toolkit.Row.{Row, get_value}
use tauri_plugin_sqlite.Toolkit.Pagination.{ascending, KeysetColumn, reversed_keyset}
use tauri_plugin_sqlite.Toolkit.Pagination.Condition.Sql.{Order, comes_after}
use tauri_plugin_sqlite.Toolkit.Pagination.Query.{
  build_paginated_query, validate_columns, trim_base,
}
use tauri_plugin_sqlite.Toolkit.Pagination.Identifiers.{validate_column_name}
use tauri_plugin_sqlite.Toolkit.Pagination.Condition.{build_cursor_condition}
use tauri_plugin_sqlite.Toolkit.Pagination.Scan.{validate_base_query}
use tauri_plugin_sqlite.Toolkit.Pagination.Query.Statement.{Builds, Fits, passes, statement_text}
use tauri_plugin_sqlite.Toolkit.FetchPage.{new, before, cursor_of, execute}
use tauri_plugin_sqlite.Toolkit.FetchPage.Documented.{select, Answers, InOrder, select_ext}
use tauri_plugin_sqlite.Toolkit.FetchPage.Page.{IsUsable}
use tauri_plugin_sqlite.Toolkit.FetchPage.Pages.{execute-before}
use tauri_plugin_sqlite.Toolkit.FetchPage.Walk.{walk, walk-new}

abbrev numbers : Order ℕ
numbers = record { same = λ a b. a == b; less = ltb }

abbrev by_id : List KeysetColumn
by_id = record { name = codes "id"; direction = ascending } ∷ []

abbrev posts : Text
posts = codes "SELECT * FROM posts"

abbrev post : ℕ → Row ℕ
post n = (codes "id", n) ∷ []

abbrev three_posts : List (Row ℕ)
three_posts = post 1 ∷ (post 2 ∷ (post 3 ∷ []))

abbrev id_of : Row ℕ → List ℕ
id_of [] = []
id_of ((c, n) ∷ r) = n ∷ []

-- A database that knows the two statements of a forward walk over the table.
abbrev forward_table : Text → List ℕ → Result Error (List (Row ℕ))
forward_table sql [] = ok (take 3 three_posts)
forward_table sql (n ∷ binds) =
    ok (take 3 (select (comes_after numbers by_id (n ∷ [])) three_posts))

posts-IsUsable : IsUsable posts by_id 2
unfolding validate_base_query validate_columns text_eq validate_column_name is_ascii_alphabetic
    is_ascii_alphanumeric split
posts-IsUsable = record {
  base_ok = refl;
  columns_ok = refl;
  some_column = refl;
  some_row = omega arith;
  room = omega arith;
}

abbrev values_of : Result Error (Option (Text × List ℕ)) → List ℕ
values_of (err e) = []
values_of (ok none) = []
values_of (ok (some (sql, values))) = values

forward_answer :
    (cursor : Option (List ℕ))
    → Fits by_id cursor
    → (b : Builds posts by_id cursor 3 [] (build_paginated_query posts by_id cursor 2 false 0))
    → (sql : Text)
    → forward_table sql b.values
      ≡ ok (take 3 (select (passes numbers b.values b.condition) three_posts))
unfolding build_paginated_query validate_base_query text_eq validate_column_name is_ascii_alphabetic
    is_ascii_alphanumeric split build_cursor_condition
forward_answer none fits b sql =
    ap (forward_table sql) (sym (ap values_of b.built_as))
    ∙ ap (λ l. ok (take 3 l)) (select_ext _ _ three_posts (λ r. sym (b.passes_iff numbers r)))
forward_answer (some []) fits b sql = absurd (omega arith)
forward_answer (some (n ∷ [])) fits b sql =
    ap (forward_table sql) (sym (ap values_of b.built_as))
    ∙ ap (λ l. ok (take 3 l)) (select_ext _ _ three_posts (λ r. sym (b.passes_iff numbers r)))
forward_answer (some (n ∷ m ∷ ns)) fits b sql = absurd (omega arith)

forward-Answers : Answers numbers by_id forward_table posts [] 2 three_posts false
forward-Answers = record {
  answer = λ cursor fits b. forward_answer cursor fits b (
      statement_text
        (record { base = trim_base posts; condition = b.condition; order = by_id; limit = 3 }));
}

in_order : InOrder numbers by_id id_of three_posts
unfolding cursor_of comes_after get_value text_eq
in_order = (
  refl,
  refl,
  ((refl, refl), ((refl, refl), tt)),
  (refl, refl, ((refl, refl), tt), (refl, refl, tt, tt)),
)

walk-new_example :
    walk forward_table (new posts [] by_id 2) 4 (new posts [] by_id 2) ≡ ok (some three_posts)
walk-new_example =
    walk-new numbers by_id id_of forward_table posts [] 2 posts-IsUsable three_posts forward-Answers
      in_order

-- A database that knows the statements of a backward page over the table.
abbrev backward_table : Text → List ℕ → Result Error (List (Row ℕ))
backward_table sql [] = ok (take 3 (reverse three_posts))
backward_table sql (n ∷ binds) =
    ok
      (take 3 (select (comes_after numbers (reversed_keyset by_id) (n ∷ [])) (reverse three_posts)))

backward_answer :
    (cursor : Option (List ℕ))
    → Fits by_id cursor
    → (b : Builds posts
        (reversed_keyset by_id)
        cursor
        3
        []
        (build_paginated_query posts by_id cursor 2 true 0))
    → (sql : Text)
    → backward_table sql b.values
      ≡ ok (take 3 (select (passes numbers b.values b.condition) (reverse three_posts)))
unfolding build_paginated_query validate_base_query text_eq validate_column_name is_ascii_alphabetic
    is_ascii_alphanumeric split build_cursor_condition reversed_keyset
backward_answer none fits b sql =
    ap (backward_table sql) (sym (ap values_of b.built_as))
    ∙ ap (λ l. ok (take 3 l))
        (select_ext _ _ (reverse three_posts) (λ r. sym (b.passes_iff numbers r)))
backward_answer (some []) fits b sql = absurd (omega arith)
backward_answer (some (n ∷ [])) fits b sql =
    ap (backward_table sql) (sym (ap values_of b.built_as))
    ∙ ap (λ l. ok (take 3 l))
        (select_ext _ _ (reverse three_posts) (λ r. sym (b.passes_iff numbers r)))
backward_answer (some (n ∷ m ∷ ns)) fits b sql = absurd (omega arith)

backward-Answers : Answers numbers by_id backward_table posts [] 2 three_posts true
backward-Answers = record {
  answer = λ cursor fits b. backward_answer cursor fits b (
      statement_text (record {
        base = trim_base posts;
        condition = b.condition;
        order = reversed_keyset by_id;
        limit = 3;
      }));
}

same_comm : (a b : ℕ) → (a == b) ≡ (b == a)
same_comm a b = ground arith

execute-before_example :
    execute backward_table (before (new posts [] by_id 2) (3 ∷ []))
    ≡ ok (some (record { rows = post 1 ∷ (post 2 ∷ []); next_cursor = none; has_more = false }))
execute-before_example =
    execute-before numbers by_id id_of backward_table posts [] 2 posts-IsUsable same_comm
      (post 1 ∷ (post 2 ∷ [])) (post 3) [] backward-Answers in_order
