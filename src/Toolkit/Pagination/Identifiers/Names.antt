-- ===== src/Toolkit/Pagination/Identifiers/Names.antt =====
-- `validate_column_name` decides a grammar of qualified names.
use tauri_plugin_sqlite.Prelude.{
  is_ascii_alphabetic, is_ascii_alphanumeric, ℕ, ◌≡◌, ◌≢◌, ◌↔◌, refl, sym, ap, ◌∙◌, subst, ◌⊎◌,
  Bool, true, false, not, List, [], ◌∷◌, ◌++◌, arith, Text, split, join, split-join, join-split,
  split-Lacks, split-All, Lacks, All, any, is_empty, ◌==◌, ok, split-ne-nil,
}
use tauri_plugin_sqlite.Toolkit.Pagination.Identifiers.{is_name_char, dot, validate_column_name}

-- A letter, a digit or an underscore.
abbrev pub IsWordChar : ℕ → Type 0
IsWordChar c = (is_ascii_alphanumeric c ≡ true) ⊎ (c ≡ b'_')

-- A letter or an underscore.
abbrev pub IsLead : ℕ → Type 0
IsLead c = (is_ascii_alphabetic c ≡ true) ⊎ (c ≡ b'_')

abbrev pub IsPart : Text → Type 0
IsPart p = (p ≢ []) × All IsWordChar p

-- One or more parts between dots; the first begins with a letter or an underscore.
pub record IsColumnName (name : Text) : Type 0 where
  pub lead : ℕ
  pub rest : Text
  pub parts : List Text
  pub lead_ok : IsLead lead
  pub rest_ok : All IsWordChar rest
  pub parts_ok : All IsPart parts
  pub spelled : name ≡ join (dot ∷ []) ((lead ∷ rest) ∷ parts)

word_ne_dot : (c : ℕ) → IsWordChar c → c ≢ dot
unfolding is_ascii_alphanumeric
word_ne_dot c h e = ground arith

word_of_name_char : (c : ℕ) → is_name_char c ≡ true → c ≢ dot → IsWordChar c
word_of_name_char c h e = ground arith

name_char_of_word : (c : ℕ) → IsWordChar c → is_name_char c ≡ true
name_char_of_word c h = ground arith

lead_is_word : (c : ℕ) → IsLead c → IsWordChar c
unfolding is_ascii_alphanumeric is_ascii_alphabetic
lead_is_word c h = ground arith

word-Lacks : (p : Text) → All IsWordChar p → Lacks dot p
word-Lacks [] h = tt
word-Lacks (c ∷ p) h = (word_ne_dot c h.0, word-Lacks p h.1)

parts-Lacks : (ps : List Text) → All IsPart ps → All (Lacks dot) ps
parts-Lacks [] h = tt
parts-Lacks (p ∷ ps) h = (word-Lacks p h.0.1, parts-Lacks ps h.1)

parts_not_empty : (ps : List Text) → All IsPart ps → any is_empty ps ≡ false
parts_not_empty [] h = refl
parts_not_empty ([] ∷ ps) h = absurd (h.0.0 refl)
parts_not_empty ((c ∷ p) ∷ ps) h = parts_not_empty ps h.1

abbrev bad_char : ℕ → Bool
bad_char ch = not (is_name_char ch)

no_bad-word : (p : Text) → All IsWordChar p → any bad_char p ≡ false
no_bad-word [] h = refl
no_bad-word (c ∷ p) h = ground (arith, name_char_of_word c h.0, no_bad-word p h.1)

any-append :
    (f : ℕ → Bool) (p r : Text) → any f p ≡ false → any f r ≡ false → any f (p ++ r) ≡ false
any-append f [] r hp hr = hr
any-append f (c ∷ p) r hp hr = ground (arith, any-append f p r)

any-append_left : (f : ℕ → Bool) (p r : Text) → any f (p ++ r) ≡ false → any f p ≡ false
any-append_left f [] r h = refl
any-append_left f (c ∷ p) r h = ground (arith, any-append_left f p r)

any-append_right : (f : ℕ → Bool) (p r : Text) → any f (p ++ r) ≡ false → any f r ≡ false
any-append_right f [] r h = h
any-append_right f (c ∷ p) r h = ground (arith, any-append_right f p r)

-- The names that a text's words, joined by dots, contain.
any-join :
    (p : Text) (ps : List Text)
    → All IsWordChar p
    → All IsPart ps
    → any bad_char (join (dot ∷ []) (p ∷ ps)) ≡ false
unfolding join is_ascii_alphanumeric
any-join p [] hp hps = no_bad-word p hp
any-join p (q ∷ ps) hp hps =
    any-append bad_char p (dot ∷ join (dot ∷ []) (q ∷ ps)) (no_bad-word p hp)
      (any-join q ps hps.0.1 hps.1)

join-cons :
    (c : ℕ) (p : Text) (ps : List Text)
    → join (dot ∷ []) ((c ∷ p) ∷ ps) ≡ c ∷ join (dot ∷ []) (p ∷ ps)
unfolding join
join-cons c p [] = refl
join-cons c p (q ∷ ps) = refl

grammar-ok :
    (c : ℕ) (r : Text) (ps : List Text)
    → IsLead c
    → All IsWordChar r
    → All IsPart ps
    → validate_column_name (join (dot ∷ []) ((c ∷ r) ∷ ps)) ≡ ok tt
unfolding validate_column_name
grammar-ok c r ps lead rest parts =
    rw (join-cons c r ps)
      (ground (arith, any-join r ps rest parts, ap (any is_empty) whole, parts_not_empty ps parts))
  where
    whole : split dot (c ∷ join (dot ∷ []) (r ∷ ps)) ≡ (c ∷ r) ∷ ps
    whole =
        ap (split dot) (sym (join-cons c r ps))
        ∙ split-join dot (c ∷ r) ps
            (word-Lacks (c ∷ r) (lead_is_word c lead, rest), parts-Lacks ps parts)

abbrev NameChars : Text → Type 0
NameChars = All (λ c. is_name_char c ≡ true)

good_chars : (t : Text) → any bad_char t ≡ false → NameChars t
good_chars [] h = tt
good_chars (c ∷ t) h = (ground arith, good_chars t (ground arith))

words : (p : Text) → NameChars p → Lacks dot p → All IsWordChar p
words [] n l = tt
words (c ∷ p) n l = (word_of_name_char c n.0 l.0, words p n.1 l.1)

All-parts :
    (ps : List Text)
    → All NameChars ps
    → All (Lacks dot) ps
    → any is_empty ps ≡ false
    → All IsPart ps
All-parts [] n l e = tt
All-parts ([] ∷ ps) n l e = cc
All-parts ((c ∷ p) ∷ ps) n l e = ((λ h. cc, words (c ∷ p) n.0 l.0), All-parts ps n.1 l.1 e)

lead_ne_dot : (c : ℕ) → IsLead c → (c == dot) ≡ false
unfolding is_ascii_alphabetic
lead_ne_dot c h = ground arith

grammar_of_split :
    (c : ℕ) (r : Text) (ps : List Text)
    → IsLead c
    → NameChars r
    → split dot r ≡ ps
    → any is_empty (split dot (c ∷ r)) ≡ false
    → IsColumnName (c ∷ r)
unfolding split
grammar_of_split c r [] lead chars e h = absurd (split-ne-nil dot r e)
grammar_of_split c r (p ∷ ps) lead chars e h = record {
  lead = c;
  rest = p;
  parts = ps;
  lead_ok = lead;
  rest_ok = words p in_chars.0 lacks.0;
  parts_ok = All-parts ps in_chars.1 lacks.1 (ground (arith, lead_ne_dot c lead));
  spelled = sym (join-cons c p ps ∙ ap (◌∷◌ c) (ap (join (dot ∷ [])) (sym e) ∙ join-split dot r));
}
  where
    in_chars : All NameChars (p ∷ ps)
    in_chars = subst (All NameChars) e (split-All dot (λ a. is_name_char a ≡ true) r chars)

    lacks : All (Lacks dot) (p ∷ ps)
    lacks = subst (All (Lacks dot)) e (split-Lacks dot r)

ok-grammar : (name : Text) → validate_column_name name ≡ ok tt → IsColumnName name
unfolding validate_column_name
ok-grammar [] h = cc
ok-grammar (c ∷ r) h =
    grammar_of_split c r (split dot r) (ground arith) (good_chars r (ground arith)) refl
      (ground arith)

-- A column name is accepted exactly when it is one or more parts between dots, where each part is
-- one or more letters, digits or underscores and the first begins with no digit.
pub validate_column_name_iff :
    (name : Text) → (validate_column_name name ≡ ok tt) ↔ IsColumnName name
validate_column_name_iff name = (
  ok-grammar name,
  λ g. rw g.spelled (grammar-ok g.lead g.rest g.parts g.lead_ok g.rest_ok g.parts_ok),
)
