-- ===== src/Toolkit/FetchPage/Page.antt =====
-- One page: `execute` returns the rows next to the cursor, in the keyset's order.
use mathlib.Core.List.{reverse-cons, reverse-reverse}
use tauri_plugin_sqlite.Prelude.{
  ℕ, zero, suc, ◌+◌, ◌<◌, ◌≡◌, refl, sym, ap, ◌∙◌, inl, inr, Bool, true, false, List, [], ◌∷◌, ◌++◌,
  reverse, Option, none, some, arith, Text, length, take, first?, last?, last?-append, All,
  is_empty, ltb, ◌==◌, if◌then◌else◌, Result, ok, Bool-cases, take-all, take-take-suc, length-take,
}
use tauri_plugin_sqlite.Toolkit.{Error}
use tauri_plugin_sqlite.Toolkit.Row.{Row}
use tauri_plugin_sqlite.Toolkit.Pagination.{KeysetColumn}
use tauri_plugin_sqlite.Toolkit.Pagination.Scan.{validate_base_query}
use tauri_plugin_sqlite.Toolkit.Pagination.Condition.Sql.{Order}
use tauri_plugin_sqlite.Toolkit.Pagination.Query.{
  validate_columns, usize_max, build_paginated_query,
}
use tauri_plugin_sqlite.Toolkit.Pagination.Query.Statement.{
  passes, within, effective, Fits, Builds, build_paginated_query-Builds,
}
use tauri_plugin_sqlite.Toolkit.FetchPage.{
  CursorPosition, KeysetPage, FetchPageBuilder, cursor_values, is_backward, check_cursor_length,
  cursor_of, next_cursor_of, page_of, run_page, execute,
}
use tauri_plugin_sqlite.Toolkit.FetchPage.Documented.{select, directed, Answers, select_ext}

-- The page that holds the rows `shown`, taken from `matching`, with the keys of its rows.
abbrev pub the_page :
    {V : Type 0} (key : Row V → List V) (page_size : ℕ) (matching shown : List (Row V))
    (cursor_row : Option (Row V))
    → KeysetPage V
the_page key page_size matching shown cursor_row = record {
  rows = shown;
  next_cursor =
      if ltb page_size (length matching)
      then (elim cursor_row [ none ↦ none | some r ↦ some (key r) ])
      else none;
  has_more = ltb page_size (length matching);
}

-- Every row has its key.
abbrev pub Keyed : {V : Type 0} → List KeysetColumn → (Row V → List V) → List (Row V) → Type 0
Keyed ks key = All (λ r. cursor_of ks r ≡ ok (key r))

module _ {V : Type 0} (ks : List KeysetColumn) (key : Row V → List V) where
  next_cursor_of-last :
      (more : Bool) (xs : List (Row V))
      → Keyed ks key xs
      → next_cursor_of more ks (last? xs)
        ≡ ok (if more then (elim (last? xs) [ none ↦ none | some r ↦ some (key r) ]) else none)
  unfolding next_cursor_of
  next_cursor_of-last false xs h = refl
  next_cursor_of-last true [] h = refl
  next_cursor_of-last true (x ∷ []) h = rw h.0
  next_cursor_of-last true (x ∷ y ∷ xs) h = next_cursor_of-last true (y ∷ xs) h.1

first?-eq-last? : {A : Type 0} (xs : List A) → first? xs ≡ last? (reverse xs)
first?-eq-last? [] = refl
first?-eq-last? (x ∷ xs) = sym (ap last? (reverse-cons x xs) ∙ last?-append (reverse xs) x)

first?-reverse : {A : Type 0} (xs : List A) → first? (reverse xs) ≡ last? xs
first?-reverse xs = first?-eq-last? (reverse xs) ∙ ap last? (reverse-reverse xs)

All-take : {A : Type 0} (P : A → Type 0) (n : ℕ) (xs : List A) → All P xs → All P (take n xs)
All-take P zero xs h = tt
All-take P (suc n) [] h = tt
All-take P (suc n) (x ∷ xs) h = (h.0, All-take P n xs h.1)

ltb-take : {A : Type 0} (n : ℕ) (xs : List A) → ltb n (length (take (n + 1) xs)) ≡ ltb n (length xs)
ltb-take n xs = ground (arith, length-take (n + 1) xs)

-- The row more than the page that was asked for is cut off again.
truncate_lem :
    {A : Type 0} (n : ℕ) (xs : List A)
    → (if ltb n (length xs) then take n (take (n + 1) xs) else take (n + 1) xs) ≡ take n xs
truncate_lem n xs = elim (Bool-cases (ltb n (length xs))) [
  | inl more ↦ rw more (ap (λ m. take n (take m xs)) {y = suc n} (omega arith) ∙ take-take-suc n xs)
  | inr done ↦ rw done (take-all (n + 1) xs (ground arith) ∙ sym (take-all n xs (ground arith)))
]

module _ {V : Type 0} (ks : List KeysetColumn) (key : Row V → List V) where
  page_of_lem :
      (page_size : ℕ) (matching : List (Row V)) (reverse_order : Bool)
      → Keyed ks key matching
      → page_of ks page_size reverse_order (take (page_size + 1) matching)
        ≡ ok (
            the_page key page_size matching
              (directed reverse_order (take page_size matching))
              (last? (take page_size matching)))
  unfolding page_of
  page_of_lem n xs false h =
      rw (ltb-take n xs, truncate_lem n xs)
        (rw (next_cursor_of-last ks key (ltb n (length xs)) (take n xs) (All-take _ n xs h)))
  page_of_lem n xs true h =
      rw (ltb-take n xs, truncate_lem n xs, first?-reverse (take n xs))
        (rw (next_cursor_of-last ks key (ltb n (length xs)) (take n xs) (All-take _ n xs h)))

All-append : {A : Type 0} (P : A → Type 0) (xs ys : List A) → All P xs → All P ys → All P (xs ++ ys)
All-append P [] ys h k = k
All-append P (x ∷ xs) ys h k = (h.0, All-append P xs ys h.1 k)

All-reverse : {A : Type 0} (P : A → Type 0) (xs : List A) → All P xs → All P (reverse xs)
All-reverse P [] h = tt
All-reverse P (x ∷ xs) h =
    rw (reverse-cons x xs) (All-append P (reverse xs) (x ∷ []) (All-reverse P xs h.1) (h.0, tt))

All-select :
    {A : Type 0} (P : A → Type 0) (p : A → Bool) (xs : List A) → All P xs → All P (select p xs)
All-select P p [] h = tt
All-select P p (x ∷ xs) h = elim (Bool-cases (p x)) [
  | inl e ↦ rw e (h.0, All-select P p xs h.1)
  | inr e ↦ rw e (All-select P p xs h.1)
]

All-directed :
    {A : Type 0} (P : A → Type 0) (b : Bool) (xs : List A) → All P xs → All P (directed b xs)
All-directed P true xs h = All-reverse P xs h
All-directed P false xs h = h

check_cursor_length_lem :
    {V : Type 0} (cursor : Option (List V)) (ks : List KeysetColumn)
    → Fits ks cursor
    → check_cursor_length cursor ks ≡ ok tt
unfolding check_cursor_length
check_cursor_length_lem none ks h = refl
check_cursor_length_lem (some vs) ks h = ground arith

-- What the theorems below assume of the query, the keyset and the page size.
pub record IsUsable (query : Text) (ks : List KeysetColumn) (page_size : ℕ) : Type 0 where
  pub base_ok : validate_base_query query ≡ ok tt
  pub columns_ok : validate_columns ks ≡ ok tt
  pub some_column : is_empty ks ≡ false
  pub some_row : 0 < page_size
  pub room : page_size < usize_max

module _ {V : Type 0} (o : Order V) (ks : List KeysetColumn) (key : Row V → List V)
    (fetch : Text → List V → Result Error (List (Row V))) (query : Text) (user : List V)
    (page_size : ℕ) (rows : List (Row V)) where
  abbrev pub builder : Option (CursorPosition V) → FetchPageBuilder V
  builder cursor = record {
    query = query;
    values = user;
    keyset = ks;
    page_size = page_size;
    cursor = cursor;
  }

  -- The rows that a page with this cursor is cut from, in the order in which SQLite sends them.
  abbrev pub matching : Option (CursorPosition V) → List (Row V)
  matching cursor =
      select (within o (effective (is_backward cursor) ks) (cursor_values cursor))
        (directed (is_backward cursor) rows)

  execute_lem :
      (cursor : Option (CursorPosition V))
      → IsUsable query ks page_size
      → Fits ks (cursor_values cursor)
      → Answers o ks fetch query user page_size rows (is_backward cursor)
      → Keyed ks key rows
      → execute fetch (builder cursor)
        ≡ ok (
            some (
              the_page key page_size
                (matching cursor)
                (directed (is_backward cursor) (take page_size (matching cursor)))
                (last? (take page_size (matching cursor)))))
  unfolding execute
  execute_lem cursor usable fits answers keyed =
      rw
        (
          usable.some_column,
          nonzero,
          check_cursor_length_lem (cursor_values cursor) ks fits,
          b.built_as,
          run_page,
          answers.answer (cursor_values cursor) fits b,
          agree,
        )
        (rw (page_of_lem ks key page_size (matching cursor) (is_backward cursor) in_page))
    where
      b :
          Builds query
            (effective (is_backward cursor) ks)
            (cursor_values cursor)
            (page_size + 1)
            user
            (build_paginated_query query ks
              (cursor_values cursor)
              page_size
              (is_backward cursor)
              (length user))
      b =
          build_paginated_query-Builds query page_size user usable.room ks (cursor_values cursor)
            (is_backward cursor) usable.base_ok usable.columns_ok fits

      nonzero : (page_size == 0) ≡ false
      nonzero = let h : 0 < page_size = usable.some_row in ground arith

      agree :
          select (passes o (user ++ b.values) b.condition) (directed (is_backward cursor) rows)
          ≡ matching cursor
      agree = select_ext _ _ (directed (is_backward cursor) rows) (b.passes_iff o)

      in_page : Keyed ks key (matching cursor)
      in_page =
          All-select _ _ (directed (is_backward cursor) rows)
            (All-directed _ (is_backward cursor) rows keyed)

  pub execute-matching :
      (cursor : Option (CursorPosition V))
      → IsUsable query ks page_size
      → Fits ks (cursor_values cursor)
      → Answers o ks fetch query user page_size rows (is_backward cursor)
      → Keyed ks key rows
      → (found : List (Row V)) → matching cursor ≡ found
      → execute fetch (builder cursor)
        ≡ ok (
            some (
              the_page key page_size found
                (directed (is_backward cursor) (take page_size found))
                (last? (take page_size found))))
  execute-matching cursor usable fits answers keyed found e =
      rw (← e) (execute_lem cursor usable fits answers keyed)
