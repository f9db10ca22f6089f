-- ===== src/Toolkit/FetchPage/Order.antt =====
-- Selecting the rows behind, or before, one row of a list that is strictly in order.
use tauri_plugin_sqlite.Prelude.{
  suc, length, ◌≡◌, refl, ap, inl, inr, Bool, true, false, List, [], ◌∷◌, ◌++◌, some, arith, All,
  ok, Option-cases, Result-cases,
}
use tauri_plugin_sqlite.Toolkit.Row.{Row, get_value}
use tauri_plugin_sqlite.Toolkit.Pagination.{
  SortDirection, ascending, descending, KeysetColumn, reversed, reversed_keyset,
}
use tauri_plugin_sqlite.Toolkit.Pagination.Condition.Sql.{Order, beyond, comes_after}
use tauri_plugin_sqlite.Toolkit.FetchPage.{cursor_of}
use tauri_plugin_sqlite.Toolkit.FetchPage.Documented.{select, follows, InOrder}

select-All : {A : Type 0} (p : A → Bool) (xs : List A) → All (λ x. p x ≡ true) xs → select p xs ≡ xs
select-All p [] h = refl
select-All p (x ∷ xs) h = rw h.0 (ap (◌∷◌ x) (select-All p xs h.1))

select_none :
    {A : Type 0} (p : A → Bool) (xs : List A) → All (λ x. p x ≡ false) xs → select p xs ≡ []
select_none p [] h = refl
select_none p (x ∷ xs) h = rw h.0 (select_none p xs h.1)

pub select_ext_All :
    {A : Type 0} (p q : A → Bool) (xs : List A)
    → All (λ x. p x ≡ q x) xs
    → select p xs ≡ select q xs
select_ext_All p q [] h = refl
select_ext_All p q (x ∷ xs) h = rw (h.0, select_ext_All p q xs h.1)

pub All-map :
    {A : Type 0} (P Q : A → Type 0) (xs : List A) → ((x : A) → P x → Q x) → All P xs → All Q xs
All-map P Q [] f h = tt
All-map P Q (x ∷ xs) f h = (f x h.0, All-map P Q xs f h.1)

pub All-middle :
    {A : Type 0} (P : A → Type 0) (xs : List A) (x : A) (ys : List A) → All P (xs ++ (x ∷ ys)) → P x
All-middle P [] x ys h = h.0
All-middle P (y ∷ xs) x ys h = All-middle P xs x ys h.1

module _ {V : Type 0} (o : Order V) (ks : List KeysetColumn) (key : Row V → List V) where
  pub InOrder-Keyed :
      (rows : List (Row V)) → InOrder o ks key rows → All (λ r. cursor_of ks r ≡ ok (key r)) rows
  InOrder-Keyed [] h = tt
  InOrder-Keyed (r ∷ rows) h = (h.0, InOrder-Keyed rows h.3)

  -- The rows behind `r`.
  pub select-follows :
      (pre : List (Row V)) (r : Row V) (rest : List (Row V))
      → InOrder o ks key (pre ++ (r ∷ rest))
      → select (follows o ks key r) (pre ++ (r ∷ rest)) ≡ rest
  select-follows [] r rest h = rw h.1 (select-All _ rest (All-map _ _ rest (λ x k. k.0) h.2))
  select-follows (p ∷ pre) r rest h =
      rw (All-middle _ pre r rest h.2).1 (select-follows pre r rest h.3)

  -- The rows before `r`.
  pub select-precedes :
      (pre : List (Row V)) (r : Row V) (rest : List (Row V))
      → InOrder o ks key (pre ++ (r ∷ rest))
      → select (λ s. follows o ks key s r) (pre ++ (r ∷ rest)) ≡ pre
  select-precedes [] r rest h = rw h.1 (select_none _ rest (All-map _ _ rest (λ x k. k.1) h.2))
  select-precedes (p ∷ pre) r rest h =
      rw (All-middle _ pre r rest h.2).0 (ap (◌∷◌ p) (select-precedes pre r rest h.3))

-- The columns of a row whose cursor can be read.
cursor_of-eq-ok :
    {V : Type 0} (k : KeysetColumn) (ks : List KeysetColumn) (row : Row V) (vs : List V)
    → cursor_of (k ∷ ks) row ≡ ok vs
    → (v : V) × (ws : List V) × (get_value row k.name ≡ some v)
      × (cursor_of ks row ≡ ok ws)
      × (vs ≡ v ∷ ws)
unfolding cursor_of
cursor_of-eq-ok k ks row vs h = elim (Option-cases (get_value row k.name)) [
  | inl missing ↦ absurd (ground arith)
  | inr (v, found) ↦ elim (Result-cases (cursor_of ks row)) [
    | inl (ws, read) ↦ (v, ws, found, read, ground arith)
    | inr (e, failed) ↦ absurd (ground arith)
  ]
]

-- A cursor has as many values as the keyset has columns.
pub length-cursor_of :
    {V : Type 0} (ks : List KeysetColumn) (row : Row V) (vs : List V)
    → cursor_of ks row ≡ ok vs
    → length ks ≡ length vs
unfolding cursor_of
length-cursor_of [] row vs h = ground arith
length-cursor_of (k ∷ ks) row vs h =
    let (v, ws, found, read, e) = cursor_of-eq-ok k ks row vs h in
    rw e (ap suc (length-cursor_of ks row ws read))

module _ {V : Type 0} (o : Order V) (same_comm : (a b : V) → o.same a b ≡ o.same b a) where
  beyond-reversed :
      (d : SortDirection) (a b : V)
      → beyond o (reversed d) (some a) (some b) ≡ beyond o d (some b) (some a)
  unfolding reversed
  beyond-reversed ascending a b = refl
  beyond-reversed descending a b = refl

  -- Behind the one in the reversed order is before it in the order.
  pub comes_after-reversed_keyset :
      (ks : List KeysetColumn) (r s : Row V) (vs ws : List V)
      → cursor_of ks r ≡ ok vs
      → cursor_of ks s ≡ ok ws
      → comes_after o (reversed_keyset ks) vs s ≡ comes_after o ks ws r
  unfolding comes_after reversed_keyset
  comes_after-reversed_keyset [] r s vs ws hr hs = refl
  comes_after-reversed_keyset (k ∷ ks) r s vs ws hr hs =
      let (v, vs', get_v, rest_v, e) = cursor_of-eq-ok k ks r vs hr in
      let (w, ws', get_w, rest_w, f) = cursor_of-eq-ok k ks s ws hs in
      rw (
        e,
        f,
        get_v,
        get_w,
        beyond-reversed k.direction w v,
        same_comm w v,
        comes_after-reversed_keyset ks r s vs' ws' rest_v rest_w,
      )
