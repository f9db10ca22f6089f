-- ===== src/Toolkit/FetchPage/Documented.antt =====
-- What the builder relies on: SQLite answers a page statement with the rows of the base query that
-- its condition lets through, in the order of its ORDER BY clause, up to its LIMIT.
use mathlib.Core.List.{reverse-cons}
use tauri_plugin_sqlite.Prelude.{
  ℕ, ◌+◌, ◌≡◌, length, Bool, true, false, List, [], ◌∷◌, ◌++◌, reverse, Option, Text, All, take,
  refl, sym, ap, ◌∙◌, inl, inr, Bool-cases, append-nil, arith, Result, ok, if◌then◌else◌,
}
use tauri_plugin_sqlite.Toolkit.{Error}
use tauri_plugin_sqlite.Toolkit.Row.{Row}
use tauri_plugin_sqlite.Toolkit.Pagination.{KeysetColumn}
use tauri_plugin_sqlite.Toolkit.Pagination.Condition.Sql.{Order, comes_after}
use tauri_plugin_sqlite.Toolkit.Pagination.Query.{trim_base, build_paginated_query}
use tauri_plugin_sqlite.Toolkit.Pagination.Query.Statement.{
  statement_text, passes, effective, Fits, Builds,
}
use tauri_plugin_sqlite.Toolkit.FetchPage.{cursor_of}

-- The items that satisfy the test, in order.
abbrev pub select {ℓ} : {A : Type ℓ} → (A → Bool) → List A → List A
select p [] = []
select p (x ∷ xs) = if p x then x ∷ select p xs else select p xs

abbrev pub directed : {A : Type 0} → Bool → List A → List A
directed backward xs = if backward then reverse xs else xs

module _ {V : Type 0} (o : Order V) (ks : List KeysetColumn) where
  -- `rows` are the rows of the base query with `user` bound, in the order of the keyset; reversed
  -- directions give them in reverse. The statements are those of `build_paginated_query`.
  pub record Answers (fetch : Text → List V → Result Error (List (Row V))) (query : Text)
      (user : List V) (page_size : ℕ) (rows : List (Row V)) (backward : Bool) : Type 0 where
    pub answer :
        (cursor : Option (List V)) (fits : Fits ks cursor)
        (b : Builds query
          (effective backward ks)
          cursor
          (page_size + 1)
          user
          (build_paginated_query query ks cursor page_size backward (length user)))
        → fetch
            (statement_text (record {
              base = trim_base query;
              condition = b.condition;
              order = effective backward ks;
              limit = page_size + 1;
            }))
            (user ++ b.values)
          ≡ ok (
              take
                (page_size + 1)
                (select (passes o (user ++ b.values) b.condition) (directed backward rows)))

  module _ (key : Row V → List V) where
    abbrev pub follows : Row V → Row V → Bool
    follows r s = comes_after o ks (key r) s

    -- Every row has its key, no row stands behind itself, and each stands behind those before it
    -- and not the other way round: the keyset orders the rows strictly.
    abbrev pub InOrder : List (Row V) → Type 0
    InOrder [] = Unit
    InOrder (r ∷ rest) =
        (cursor_of ks r ≡ ok (key r))
        × (follows r r ≡ false)
        × All (λ s. (follows r s ≡ true) × (follows s r ≡ false)) rest
        × InOrder rest

-- Tests that agree select the same items.
pub select_ext {ℓ} :
    {A : Type ℓ} (p q : A → Bool) (xs : List A) → ((x : A) → p x ≡ q x) → select p xs ≡ select q xs
select_ext p q [] h = refl
select_ext p q (x ∷ xs) h = rw (h x, select_ext p q xs h)

pub select-append {ℓ} :
    {A : Type ℓ} (p : A → Bool) (xs ys : List A) → select p (xs ++ ys) ≡ select p xs ++ select p ys
select-append p [] ys = refl
select-append p (x ∷ xs) ys = ground (arith, select-append p xs ys)

pub select-reverse {ℓ} :
    {A : Type ℓ} (p : A → Bool) (xs : List A) → select p (reverse xs) ≡ reverse (select p xs)
select-reverse p [] = refl
select-reverse p (x ∷ xs) =
    ap (select p) (reverse-cons x xs)
    ∙ (select-append p (reverse xs) (x ∷ []) ∙ (elim (Bool-cases (p x)) [
      | inl e ↦
          rw e (ap (λ l. l ++ (x ∷ [])) (select-reverse p xs) ∙ sym (reverse-cons x (select p xs)))
      | inr e ↦ rw e (append-nil _ ∙ select-reverse p xs)
    ]))
