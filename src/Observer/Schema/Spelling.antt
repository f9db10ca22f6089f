-- ===== src/Observer/Schema/Spelling.antt =====
-- Blank texts and words in any case, as the pattern for WITHOUT ROWID reads them.
use tauri_plugin_sqlite.Prelude.{
  ℕ, ◌+◌, ◌≡◌, ◌↔◌, refl, sym, ap, ◌∙◌, inl, inr, Bool, true, false, ◌&&◌, ◌||◌, ◌==◌, ==_iff, [],
  ◌∷◌, ◌++◌, none, some, Text, is_empty, Bool-cases, All,
}
use tauri_plugin_sqlite.Observer.Schema.{is_space, skip_spaces, after_word}

abbrev pub Blank : Text → Type 0
Blank t = All (λ c. is_space c ≡ true) t

-- A word in capitals, spelled in any case.
unfoldable pub spells : Text → Text → Bool
spells [] [] = true
spells [] (c ∷ v) = false
spells (w ∷ ws) [] = false
spells (w ∷ ws) (c ∷ v) = let rest = spells ws v in (c == w || c == w + 32) && rest

pub skip_spaces-Blank : (s t : Text) → Blank s → skip_spaces (s ++ t) ≡ skip_spaces t
unfolding skip_spaces
skip_spaces-Blank [] t h = refl
skip_spaces-Blank (c ∷ s) t h = rw h.0 (skip_spaces-Blank s t h.1)

pub skip_spaces-split : (t : Text) → (s : Text) × Blank s × (t ≡ s ++ skip_spaces t)
unfolding skip_spaces
skip_spaces-split [] = ([], tt, refl)
skip_spaces-split (c ∷ t) = elim (Bool-cases (is_space c)) [
  | inl e ↦
      let (s, blank, is) = skip_spaces-split t in (c ∷ s, (e, blank), rw e (ap (λ r. c ∷ r) is))
  | inr e ↦ ([], tt, rw e refl)
]

pub and_both : (a b : Bool) → (a && b) ≡ true → (a ≡ true) × (b ≡ true)
and_both true b h = (refl, h)
and_both false b h = absurd cc

pub after_word-append : (ws v t : Text) → spells ws v ≡ true → after_word ws (v ++ t) ≡ some t
unfolding after_word spells
after_word-append [] [] t h = refl
after_word-append [] (c ∷ v) t h = absurd cc
after_word-append (w ∷ ws) [] t h = absurd cc
after_word-append (w ∷ ws) (c ∷ v) t h =
    let (same, rest) = and_both (c == w || c == w + 32) (spells ws v) h in
    rw same (after_word-append ws v t rest)

pub after_word-split :
    (ws t r : Text) → after_word ws t ≡ some r → (v : Text) × (spells ws v ≡ true) × (t ≡ v ++ r)
unfolding after_word spells
after_word-split [] t r h = ([], refl, cc)
after_word-split (w ∷ ws) [] r h = absurd cc
after_word-split (w ∷ ws) (c ∷ t) r h = elim (Bool-cases (c == w || c == w + 32)) [
  | inl e ↦
      let (v, spelled, is) = after_word-split ws t r (sym (rw e refl) ∙ h) in
      (c ∷ v, rw e spelled, ap (λ u. c ∷ u) is)
  | inr e ↦ absurd (let n : none ≡ some r = sym (rw e refl) ∙ h in cc)
]

letter-Blank :
    (w c : ℕ)
    → is_space w ≡ false
    → is_space (w + 32) ≡ false
    → (c == w || c == w + 32) ≡ true
    → is_space c ≡ false
letter-Blank w c upper lower h = elim (Bool-cases (c == w)) [
  | inl e ↦ ap is_space ((==_iff c w).0 e) ∙ upper
  | inr e ↦ ap is_space ((==_iff c (w + 32)).0 (sym (rw e refl) ∙ h)) ∙ lower
]

pub skip_spaces-word :
    (w : ℕ) (ws v t : Text)
    → is_space w ≡ false
    → is_space (w + 32) ≡ false
    → spells (w ∷ ws) v ≡ true
    → skip_spaces (v ++ t) ≡ v ++ t
unfolding skip_spaces spells
skip_spaces-word w ws [] t upper lower h = absurd cc
skip_spaces-word w ws (c ∷ v) t upper lower h =
    rw (letter-Blank w c upper lower (and_both (c == w || c == w + 32) (spells ws v) h).0) refl

pub empty_end : (t : Text) → (is_empty (skip_spaces t) ≡ true) ↔ Blank t
unfolding skip_spaces
empty_end [] = (λ h. tt, λ h. refl)
empty_end (c ∷ t) = elim (Bool-cases (is_space c)) [
  | inl e ↦ ((λ h. (e, (empty_end t).0 (sym (rw e refl) ∙ h))), (λ h. rw e ((empty_end t).1 h.1)))
  | inr e ↦ (
    (λ h. absurd (let n : false ≡ true = sym (rw e refl) ∙ h in cc)),
    (λ h. absurd (let n : false ≡ true = sym e ∙ h.0 in cc)),
  )
]
