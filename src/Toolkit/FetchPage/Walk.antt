-- ===== src/Toolkit/FetchPage/Walk.antt =====
-- A client that follows `next_cursor` sees the whole result set, once and in order.
use tauri_plugin_sqlite.Prelude.{
  ℕ, zero, suc, ◌<◌, ◌≡◌, refl, sym, ap, ◌∙◌, inl, inr, false, List, [], ◌∷◌, ◌++◌, append_assoc,
  Option, none, some, arith, Text, length, take, drop, last?, ltb, Result, ok, ◌>>=◌, Bool-cases,
  take-all, take-append-drop, length-drop, subst,
}
use tauri_plugin_sqlite.Toolkit.{Error}
use tauri_plugin_sqlite.Toolkit.Row.{Row}
use tauri_plugin_sqlite.Toolkit.Pagination.{KeysetColumn}
use tauri_plugin_sqlite.Toolkit.Pagination.Condition.Sql.{Order}
use tauri_plugin_sqlite.Toolkit.FetchPage.{KeysetPage, FetchPageBuilder, new, after, execute}
use tauri_plugin_sqlite.Toolkit.FetchPage.Documented.{Answers, InOrder}
use tauri_plugin_sqlite.Toolkit.FetchPage.Page.{the_page, IsUsable}
use tauri_plugin_sqlite.Toolkit.FetchPage.Pages.{execute-new, execute-after}

abbrev in_front : {V : Type 0} → List (Row V) → Option (List (Row V)) → Option (List (Row V))
in_front rows none = none
in_front rows (some rest) = some (rows ++ rest)

module _ {V : Type 0} (fetch : Text → List V → Result Error (List (Row V)))
    (start : FetchPageBuilder V) where
  -- What the client does with a page: asks for the next one, if there is a cursor.
  abbrev follow :
      (FetchPageBuilder V → Result Error (Option (List (Row V))))
      → Option (KeysetPage V)
      → Result Error (Option (List (Row V)))
  follow again none = ok none
  follow again (some page) = elim page.next_cursor [
    | none ↦ ok (some page.rows)
    | some cursor ↦ again (after start cursor) >>= λ rest. ok (in_front page.rows rest)
  ]

  -- The rows of the pages from a builder on, at most as many pages as the fuel; `none` means that
  -- there are more.
  pub walk : ℕ → FetchPageBuilder V → Result Error (Option (List (Row V)))
  walk zero b = ok none
  walk (suc f) b = execute fetch b >>= follow (walk f)

-- A list that is not empty ends in its last item.
unsnoc :
    {A : Type 0} (x : A) (xs : List A)
    → (init : List A) × (l : A) × ((x ∷ xs) ≡ init ++ (l ∷ [])) × (last? (x ∷ xs) ≡ some l)
unsnoc x [] = ([], x, refl, refl)
unsnoc x (y ∷ ys) = let (init, l, e, f) = unsnoc y ys in (x ∷ init, l, ap (◌∷◌ x) e, f)

unsnoc_take :
    {A : Type 0} (n : ℕ) (xs : List A)
    → 0 < n
    → n < length xs
    → (init : List A) × (l : A) × (take n xs ≡ init ++ (l ∷ [])) × (last? (take n xs) ≡ some l)
unsnoc_take zero xs h k = absurd (omega arith)
unsnoc_take (suc n) [] h k = absurd (omega arith)
unsnoc_take (suc n) (x ∷ xs) h k = unsnoc x (take n xs)

module _ {V : Type 0} (o : Order V) (ks : List KeysetColumn) (key : Row V → List V)
    (fetch : Text → List V → Result Error (List (Row V))) (query : Text) (user : List V)
    (page_size : ℕ) (usable : IsUsable query ks page_size) (rows : List (Row V))
    (answers : Answers o ks fetch query user page_size rows false)
    (ordered : InOrder o ks key rows) where
  abbrev first_page : FetchPageBuilder V
  first_page = new query user ks page_size

  after_row :
      (pre : List (Row V)) (r : Row V) (rest : List (Row V))
      → rows ≡ pre ++ (r ∷ rest)
      → execute fetch (after first_page (key r))
        ≡ ok
            (some (the_page key page_size rest (take page_size rest) (last? (take page_size rest))))
  after_row pre r rest e =
      execute-after o ks key fetch query user page_size usable pre r rest
        (subst (λ l. Answers o ks fetch query user page_size l false) e answers)
        (subst (InOrder o ks key) e ordered)

  cut :
      (pre shown init : List (Row V)) (l : Row V)
      → rows ≡ pre ++ shown
      → take page_size shown ≡ init ++ (l ∷ [])
      → rows ≡ (pre ++ init) ++ (l ∷ drop page_size shown)
  cut pre shown init l e split =
      e
      ∙ (ap (λ x. pre ++ x)
            (sym (take-append-drop page_size shown)
              ∙ (ap (λ x. x ++ drop page_size shown) split
                  ∙ append_assoc init (l ∷ []) (drop page_size shown)))
          ∙ sym (append_assoc pre init (l ∷ drop page_size shown)))

  walk_shown :
      (f : ℕ) (b : FetchPageBuilder V) (pre shown : List (Row V))
      → rows ≡ pre ++ shown
      → execute fetch b
        ≡ ok (
            some
              (the_page key page_size shown (take page_size shown) (last? (take page_size shown))))
      → length shown < f
      → walk fetch first_page f b ≡ ok (some shown)
  unfolding walk
  walk_shown zero b pre shown e page h = absurd (omega arith)
  walk_shown (suc f) b pre shown e page h = elim (Bool-cases (ltb page_size (length shown))) [
    | inl more ↦
        let (init, l, split, final) = unsnoc_take page_size shown usable.some_row (ground arith) in
        let rest = drop page_size shown in
        let cut_here = cut pre shown init l e split in
        rw
          (
            page,
            final,
            more,
            walk_shown f (after first_page (key l)) ((pre ++ init) ++ (l ∷ [])) rest
                (cut_here ∙ sym (append_assoc (pre ++ init) (l ∷ []) rest))
                (after_row (pre ++ init) l rest cut_here)
                (let pos : 0 < page_size = usable.some_row in
                  ground (arith, length-drop page_size shown)),
          )
          (ap (λ x. ok (some x)) (take-append-drop page_size shown))
    | inr done ↦ rw (page, done) (ap (λ x. ok (some x)) (take-all page_size shown (ground arith)))
  ]

  -- With a usable query (one that passes validation, as do its columns, of which there is one, and a
  -- page size from one to below `usize::MAX`), on a database that answers page statements as `Answers`
  -- says with rows that the keyset orders strictly: from the first page on, a client that passes
  -- each `next_cursor` to `after` reaches a page without one within as many pages as there are rows and
  -- one more, and has then seen every row of the result set, once and in the keyset's order.
  pub walk-new : walk fetch first_page (suc (length rows)) first_page ≡ ok (some rows)
  walk-new =
      walk_shown (suc (length rows)) first_page [] rows refl
        (execute-new o ks key fetch query user page_size usable rows answers ordered) (omega arith)
