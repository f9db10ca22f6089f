-- ===== src/Observer/Schema/Clause.antt =====
-- The test for WITHOUT ROWID, against what the pattern means.
use tauri_plugin_sqlite.Prelude.{
  ℕ, ◌≡◌, ◌↔◌, ◌⊎◌, refl, sym, ap, ◌∙◌, subst, inl, inr, Bool, true, false, ◌&&◌, ◌||◌, ◌==◌,
  ==_iff, [], ◌∷◌, ◌++◌, none, some, Text, codes, is_empty, Bool-cases, Option-cases,
}
use tauri_plugin_sqlite.Observer.Schema.{
  is_space, skip_spaces, after_word, after_some_spaces, and_then, matches_here,
  has_without_rowid_clause,
}
use tauri_plugin_sqlite.Observer.Schema.Spelling.{
  Blank, spells, skip_spaces-Blank, skip_spaces-split, and_both, after_word-append,
  after_word-split, skip_spaces-word, empty_end,
}

-- What stands behind the parenthesis: WITHOUT and ROWID in any case, at least one space between them,
-- and else only spaces.
pub record IsClause (t : Text) : Type 0 where
  pub before : Text
  pub without : Text
  pub space : ℕ
  pub between : Text
  pub rowid : Text
  pub behind : Text
  pub made_of : t ≡ before ++ (without ++ (space ∷ (between ++ (rowid ++ behind))))
  pub before-Blank : Blank before
  pub without-spelled : spells (codes "WITHOUT") without ≡ true
  pub space-Blank : is_space space ≡ true
  pub between-Blank : Blank between
  pub rowid-spelled : spells (codes "ROWID") rowid ≡ true
  pub behind-Blank : Blank behind

matches_here-made : (t : Text) → IsClause t → matches_here t ≡ true
unfolding matches_here after_some_spaces is_space
matches_here-made t c =
    let rest : Text = c.space ∷ (c.between ++ (c.rowid ++ c.behind)) in
    let skipped : skip_spaces t ≡ c.without ++ rest =
      ap skip_spaces c.made_of
      ∙ skip_spaces-Blank c.before (c.without ++ rest) c.before-Blank
      ∙ skip_spaces-word 87 (codes "ITHOUT") c.without rest refl refl c.without-spelled in
    let first = after_word-append (codes "WITHOUT") c.without rest c.without-spelled in
    let gone : skip_spaces (c.between ++ (c.rowid ++ c.behind)) ≡ c.rowid ++ c.behind =
      skip_spaces-Blank c.between (c.rowid ++ c.behind) c.between-Blank
      ∙ skip_spaces-word 82 (codes "OWID") c.rowid c.behind refl refl c.rowid-spelled in
    let second = after_word-append (codes "ROWID") c.rowid c.behind c.rowid-spelled in
    rw (matches_here, skipped)
      (rw first (rw c.space-Blank (rw gone (rw second ((empty_end c.behind).1 c.behind-Blank)))))

-- What is left behind WITHOUT.
matches_behind : Text → Bool
matches_behind b = elim (and_then (after_some_spaces b) (after_word (codes "ROWID"))) [
  | none ↦ false
  | some rest ↦ is_empty (skip_spaces rest)
]

behind-IsClause :
    (t b : Text)
    → after_word (codes "WITHOUT") (skip_spaces t) ≡ some b
    → matches_behind b ≡ true
    → IsClause t
unfolding matches_behind after_some_spaces
behind-IsClause t [] f h = absurd cc
behind-IsClause t (c ∷ r) f h = elim (Bool-cases (is_space c)) [
  | inr e ↦ absurd (let n : false ≡ true = sym (rw (e, matches_behind) refl) ∙ h in cc)
  | inl e ↦ elim (Option-cases (after_word (codes "ROWID") (skip_spaces r))) [
    | inl n ↦ absurd (let n : false ≡ true = sym (rw (e, matches_behind) (rw n refl)) ∙ h in cc)
    | inr (end, s) ↦
        let (before, blank, at) = skip_spaces-split t in
        let (without, spelled, is) = after_word-split (codes "WITHOUT") (skip_spaces t) (c ∷ r) f in
        let (between, blank', at') = skip_spaces-split r in
        let (rowid, spelled', is') = after_word-split (codes "ROWID") (skip_spaces r) end s in
        record {
          before = before;
          without = without;
          space = c;
          between = between;
          rowid = rowid;
          behind = end;
          made_of =
              at
              ∙ ap (λ u. before ++ u)
                  (is ∙ ap (λ u. without ++ (c ∷ u)) (at' ∙ ap (λ u. between ++ u) is'));
          before-Blank = blank;
          without-spelled = spelled;
          space-Blank = e;
          between-Blank = blank';
          rowid-spelled = spelled';
          behind-Blank = (empty_end end).0 (sym (rw (e, matches_behind) (rw s refl)) ∙ h);
        }
  ]
]

matches_here-IsClause : (t : Text) → matches_here t ≡ true → IsClause t
unfolding matches_here matches_behind
matches_here-IsClause t h = elim (Option-cases (after_word (codes "WITHOUT") (skip_spaces t))) [
  | inl n ↦ absurd (let n : false ≡ true = sym (rw (matches_here, n) refl) ∙ h in cc)
  | inr (b, f) ↦ behind-IsClause t b f (sym (rw (matches_here, f) refl) ∙ h)
]

either : (a b : Bool) → (a || b) ≡ true → (a ≡ true) ⊎ (b ≡ true)
either true b h = inl refl
either false b h = inr h

or_true : (a : Bool) → (a || true) ≡ true
or_true true = refl
or_true false = refl

-- The clause stands at a closing parenthesis.
abbrev pub HasClause : Text → Type 0
HasClause create_sql =
    (front clause : Text) × (create_sql ≡ front ++ (b')' ∷ clause)) × IsClause clause

module _ (c : ℕ) (r : Text) where
  HasClause-found :
      (has_without_rowid_clause r ≡ true → HasClause r)
      → has_without_rowid_clause (c ∷ r) ≡ true
      → HasClause (c ∷ r)
  unfolding has_without_rowid_clause
  HasClause-found later h =
      elim (either (c == b')' && matches_here r) (has_without_rowid_clause r) h) [
        | inl e ↦
            let (paren, here) = and_both (c == b')') (matches_here r) e in
            ([], r, ap (λ x. x ∷ r) ((==_iff c b')').0 paren), matches_here-IsClause r here)
        | inr e ↦ let (front, clause, is, k) = later e in (c ∷ front, clause, ap (λ u. c ∷ u) is, k)
      ]

  HasClause-here :
      (clause : Text)
      → c ∷ r ≡ b')' ∷ clause
      → IsClause clause
      → has_without_rowid_clause (c ∷ r) ≡ true
  unfolding has_without_rowid_clause
  HasClause-here clause is k =
      let paren : c ≡ b')' = cc in
      let same : r ≡ clause = cc in
      rw ((==_iff c b')').1 paren) (rw (matches_here-made r (subst IsClause (sym same) k)) refl)

  HasClause-made :
      (HasClause r → has_without_rowid_clause r ≡ true)
      → (front clause : Text) → c ∷ r ≡ front ++ (b')' ∷ clause)
      → IsClause clause
      → has_without_rowid_clause (c ∷ r) ≡ true
  unfolding has_without_rowid_clause
  HasClause-made rest [] clause is k = HasClause-here clause is k
  HasClause-made rest (x ∷ front) clause is k =
      let tail : r ≡ front ++ (b')' ∷ clause) = cc in
      rw (rest (front, clause, tail, k)) (or_true (c == b')' && matches_here r))

-- The test holds of a statement exactly if somewhere a closing parenthesis is followed by the clause
-- and by nothing else: spaces, WITHOUT in any case, at least one space, ROWID in any case, and spaces
-- up to the end.
pub has_without_rowid_clause_iff :
    (create_sql : Text) → (has_without_rowid_clause create_sql ≡ true) ↔ HasClause create_sql
unfolding has_without_rowid_clause
has_without_rowid_clause_iff [] =
    (λ h. absurd (let n : false ≡ true = h in cc), λ h. absurd (nothing_in h.0 h.1 h.2))
  where
    nothing_in : (front clause : Text) → ◌≡◌ {A = Text} [] (front ++ (b')' ∷ clause)) → ⊥
    nothing_in [] clause h = cc
    nothing_in (x ∷ front) clause h = cc
has_without_rowid_clause_iff (c ∷ r) =
    let rest = has_without_rowid_clause_iff r in
    (HasClause-found c r rest.0, λ h. HasClause-made c r rest.1 h.0 h.1 h.2 h.3)
