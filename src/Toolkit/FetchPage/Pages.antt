-- ===== src/Toolkit/FetchPage/Pages.antt =====
-- The first page, the page after a cursor and the page before one, for a result set whose rows the
-- keyset orders strictly.
use tauri_plugin_sqlite.Prelude.{
  ℕ, ◌≡◌, refl, ap, ◌∙◌, true, false, List, [], ◌∷◌, ◌++◌, reverse, none, some, Text, take, last?,
  Result, ok,
}
use tauri_plugin_sqlite.Toolkit.{Error}
use tauri_plugin_sqlite.Toolkit.Row.{Row}
use tauri_plugin_sqlite.Toolkit.Pagination.{KeysetColumn, reversed_keyset}
use tauri_plugin_sqlite.Toolkit.Pagination.Condition.Sql.{Order, comes_after}
use tauri_plugin_sqlite.Toolkit.FetchPage.{
  forward, backward, new, after, before, cursor_of, execute,
}
use tauri_plugin_sqlite.Toolkit.FetchPage.Documented.{select, Answers, InOrder, select-reverse}
use tauri_plugin_sqlite.Toolkit.FetchPage.Order.{
  length-cursor_of, All-map, All-middle, select_ext_All, InOrder-Keyed, select-follows,
  select-precedes, comes_after-reversed_keyset,
}
use tauri_plugin_sqlite.Toolkit.FetchPage.Page.{the_page, IsUsable, execute-matching, Keyed}

module _ {V : Type 0} (o : Order V) (ks : List KeysetColumn) (key : Row V → List V)
    (fetch : Text → List V → Result Error (List (Row V))) (query : Text) (user : List V)
    (page_size : ℕ) (usable : IsUsable query ks page_size) where
  select-true : (rows : List (Row V)) → select (λ r. true) rows ≡ rows
  select-true [] = refl
  select-true (r ∷ rows) = ap (◌∷◌ r) (select-true rows)

  -- With a usable query, and a database that answers as `Answers` says with rows that the keyset
  -- orders strictly: with no cursor, `execute` returns the first `page_size` rows, says that there are more exactly
  -- if there are, and then gives the key of the last row shown.
  pub execute-new :
      (rows : List (Row V))
      → Answers o ks fetch query user page_size rows false
      → InOrder o ks key rows
      → execute fetch (new query user ks page_size)
        ≡ ok
            (some (the_page key page_size rows (take page_size rows) (last? (take page_size rows))))
  unfolding new
  execute-new rows answers ordered =
      execute-matching o ks key fetch query user page_size rows none usable tt answers
        (InOrder-Keyed o ks key rows ordered) rows (select-true rows)

  -- With a usable query, and a database that answers as `Answers` says with rows that the keyset
  -- orders strictly: after the key of a row, `execute` returns the next `page_size` rows behind that row, says that
  -- there are more exactly if there are, and then gives the key of the last row shown.
  pub execute-after :
      (pre : List (Row V)) (r : Row V) (rest : List (Row V))
      → Answers o ks fetch query user page_size (pre ++ (r ∷ rest)) false
      → InOrder o ks key (pre ++ (r ∷ rest))
      → execute fetch (after (new query user ks page_size) (key r))
        ≡ ok
            (some (the_page key page_size rest (take page_size rest) (last? (take page_size rest))))
  unfolding new after
  execute-after pre r rest answers ordered =
      execute-matching o ks key fetch query user page_size (pre ++ (r ∷ rest))
        (some (forward (key r))) usable
        (length-cursor_of ks r (key r) (All-middle _ pre r rest keyed)) answers keyed rest
        (select-follows o ks key pre r rest ordered)
    where
      keyed : Keyed ks key (pre ++ (r ∷ rest))
      keyed = InOrder-Keyed o ks key (pre ++ (r ∷ rest)) ordered

  -- With a usable query, a symmetric equality of values, and a database that answers the reversed
  -- statements as `Answers` says with rows that the keyset orders strictly: before the key of a row,
  -- `execute` returns the `page_size` rows next before it, in the order of
  -- the result set, says that there are more exactly if there are, and then gives the key of the
  -- first row shown.
  pub execute-before :
      ((a b : V) → o.same a b ≡ o.same b a)
      → (pre : List (Row V)) (r : Row V) (rest : List (Row V))
      → Answers o ks fetch query user page_size (pre ++ (r ∷ rest)) true
      → InOrder o ks key (pre ++ (r ∷ rest))
      → execute fetch (before (new query user ks page_size) (key r))
        ≡ ok (
            some (
              the_page key page_size
                (reverse pre)
                (reverse (take page_size (reverse pre)))
                (last? (take page_size (reverse pre)))))
  unfolding new before
  execute-before same_comm pre r rest answers ordered =
      execute-matching o ks key fetch query user page_size (pre ++ (r ∷ rest))
        (some (backward (key r))) usable (length-cursor_of ks r (key r) key_r) answers keyed
        (reverse pre) found
    where
      keyed : Keyed ks key (pre ++ (r ∷ rest))
      keyed = InOrder-Keyed o ks key (pre ++ (r ∷ rest)) ordered

      key_r : cursor_of ks r ≡ ok (key r)
      key_r = All-middle _ pre r rest keyed

      found :
          select (comes_after o (reversed_keyset ks) (key r)) (reverse (pre ++ (r ∷ rest)))
          ≡ reverse pre
      found =
          select-reverse _ (pre ++ (r ∷ rest))
          ∙ ap reverse (
              select_ext_All _ _ (pre ++ (r ∷ rest)) (
                All-map _ _ (pre ++ (r ∷ rest))
                  (λ s h. comes_after-reversed_keyset o same_comm ks r s (key r) (key s) key_r h)
                  keyed)
              ∙ select-precedes o ks key pre r rest ordered)
