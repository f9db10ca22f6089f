-- ===== src/Prelude/Texts.antt =====
-- Texts that the program builds or walks, as lists of bytes: literals, comparison, `join` and
-- `split` of Rust's standard library, and decimal numbers.
use Prim.Native.Char.{code}
use Prim.Native.String.{String}
use Prim.Native.Nat.{ℕ, zero, suc, ◌+◌, ◌/◌, ◌%◌}
use mathlib.Core.Path.{◌≡◌, refl, ap, ap₂, ◌∙◌, subst}
use mathlib.Core.Logic.{◌≢◌, ◌↔◌, inl, inr}
use mathlib.Core.Bool.{Bool, true, false, ◌&&◌}
use mathlib.Core.List.{List, [], ◌∷◌, ◌++◌}
use native.Mathlib.Omega.{arith}
use tauri_plugin_sqlite.Prelude.Tests.{◌==◌, ltb, if◌then◌else◌, Bool-cases}
use tauri_plugin_sqlite.Prelude.Lists.{All, is_empty}

abbrev pub Text : Type 0
Text = List ℕ

-- The bytes of an ASCII literal.
abbrev pub codes : String → Text
codes String.[] = []
codes (String.◌∷◌ c s) = code c ∷ codes s

-- `a == b` on texts.
unfoldable pub text_eq : Text → Text → Bool
text_eq [] [] = true
text_eq [] (b ∷ s) = false
text_eq (a ∷ r) [] = false
text_eq (a ∷ r) (b ∷ s) = a == b && text_eq r s

pub text_eq_refl : (t : Text) → text_eq t t ≡ true
unfolding text_eq
text_eq_refl [] = refl
text_eq_refl (a ∷ r) = ground (arith, text_eq_refl r)

pub text_eq→≡ : (s t : Text) → text_eq s t ≡ true → s ≡ t
unfolding text_eq
text_eq→≡ [] [] h = refl
text_eq→≡ [] (b ∷ s) h = cc
text_eq→≡ (a ∷ r) [] h = cc
text_eq→≡ (a ∷ r) (b ∷ s) h = ground (arith, text_eq→≡ r s)

-- The digits of `n` in front of `acc`, least digit first; `n` below the fuel is enough.
unfoldable pub decimal_loop : ℕ → ℕ → Text → Text
decimal_loop zero n acc = acc
decimal_loop (suc f) n acc =
    let more = decimal_loop f (n / 10) ((b'0' + n % 10) ∷ acc) in
    if ltb n 10 then (b'0' + n) ∷ acc else more

-- `n.to_string()`.
unfoldable pub decimal : ℕ → Text
unfolding decimal_loop
decimal n = decimal_loop (suc n) n []

-- `text.trim_end_matches(p)`.
unfoldable pub trim_end_matches : (ℕ → Bool) → Text → Text
trim_end_matches p [] = []
trim_end_matches p (c ∷ r) =
    let rest = trim_end_matches p r in if is_empty rest && p c then [] else c ∷ rest

-- `parts.join(sep)`.
unfoldable pub join : Text → List Text → Text
join sep [] = []
join sep (p ∷ []) = p
join sep (p ∷ q ∷ ps) = p ++ (sep ++ join sep (q ∷ ps))

abbrev push_front : ℕ → List Text → List Text
push_front c [] = (c ∷ []) ∷ []
push_front c (p ∷ ps) = (c ∷ p) ∷ ps

-- `t.split(c)`: never empty, and a separator at an end gives an empty part.
unfoldable pub split : ℕ → Text → List Text
split c [] = [] ∷ []
split c (a ∷ r) = let rest = split c r in if a == c then [] ∷ rest else push_front a rest

-- No byte of the text is `c`.
abbrev pub Lacks : ℕ → Text → Type 0
Lacks c = All (λ a. a ≢ c)

pub split-ne-nil : (c : ℕ) (t : Text) → split c t ≢ []
unfolding split
split-ne-nil c [] h = cc
split-ne-nil c (a ∷ r) h = ground (arith, split-ne-nil c r)

join-push_front :
    (sep : Text) (a : ℕ) (ps : List Text) → ps ≢ [] → join sep (push_front a ps) ≡ a ∷ join sep ps
unfolding join
join-push_front sep a [] h = absurd (h refl)
join-push_front sep a (p ∷ []) h = refl
join-push_front sep a (p ∷ q ∷ ps) h = refl

join-nil-cons : (c : ℕ) (ps : List Text) → ps ≢ [] → join (c ∷ []) ([] ∷ ps) ≡ c ∷ join (c ∷ []) ps
unfolding join
join-nil-cons c [] h = absurd (h refl)
join-nil-cons c (p ∷ ps) h = refl

-- Joining the parts again gives the text.
pub join-split : (c : ℕ) (t : Text) → join (c ∷ []) (split c t) ≡ t
unfolding join split
join-split c [] = refl
join-split c (a ∷ r) = elim (Bool-cases (a == c)) [
  | inl e ↦
      rw e
        (join-nil-cons c (split c r) (split-ne-nil c r) ∙ ap₂ ◌∷◌ (ground arith) (join-split c r))
  | inr e ↦
      rw e (join-push_front (c ∷ []) a (split c r) (split-ne-nil c r) ∙ ap (◌∷◌ a) (join-split c r))
]

All-push_front :
    (P : Text → Type 0) (Q : ℕ → Type 0) (a : ℕ) (ps : List Text)
    → ((p : Text) → Q a → P p → P (a ∷ p))
    → P []
    → Q a
    → All P ps
    → All P (push_front a ps)
All-push_front P Q a [] cons nil q h = (cons [] q nil, tt)
All-push_front P Q a (p ∷ ps) cons nil q h = (cons p q h.0, h.1)

-- No part holds the separator.
pub split-Lacks : (c : ℕ) (t : Text) → All (Lacks c) (split c t)
unfolding split
split-Lacks c [] = (tt, tt)
split-Lacks c (a ∷ r) = elim (Bool-cases (a == c)) [
  | inl e ↦ rw e (tt, split-Lacks c r)
  | inr e ↦ rw e (
      All-push_front (Lacks c) (λ x. x ≢ c) a (split c r) (λ p q h. (q, h)) tt (λ h. ground arith)
        (split-Lacks c r))
]

pub text_eq_iff : (s t : Text) → (text_eq s t ≡ true) ↔ (s ≡ t)
text_eq_iff s t = (text_eq→≡ s t, λ e. subst (λ u. text_eq s u ≡ true) e (text_eq_refl s))

split-push :
    (c a : ℕ) (r : Text) (p : Text) (ps : List Text)
    → a ≢ c
    → split c r ≡ p ∷ ps
    → split c (a ∷ r) ≡ (a ∷ p) ∷ ps
unfolding split
split-push c a r p ps h e = ground arith

split-append : (c : ℕ) (p r : Text) → Lacks c p → split c (p ++ (c ∷ r)) ≡ p ∷ split c r
unfolding split
split-append c [] r h = ground arith
split-append c (a ∷ p) r h =
    split-push c a (p ++ (c ∷ r)) p (split c r) h.0 (split-append c p r h.1)

split-part : (c : ℕ) (p : Text) → Lacks c p → split c p ≡ p ∷ []
unfolding split
split-part c [] h = refl
split-part c (a ∷ p) h = split-push c a p p [] h.0 (split-part c p h.1)

-- Splitting a joined text gives the parts, if none of them holds the separator.
pub split-join :
    (c : ℕ) (p : Text) (ps : List Text)
    → All (Lacks c) (p ∷ ps)
    → split c (join (c ∷ []) (p ∷ ps)) ≡ p ∷ ps
unfolding join
split-join c p [] h = split-part c p h.0
split-join c p (q ∷ ps) h =
    split-append c p (join (c ∷ []) (q ∷ ps)) h.0 ∙ ap (◌∷◌ p) (split-join c q ps h.1)

-- Each part is made of bytes of the text.
pub split-All : (c : ℕ) (P : ℕ → Type 0) (t : Text) → All P t → All (All P) (split c t)
unfolding split
split-All c P [] h = (tt, tt)
split-All c P (a ∷ r) h = elim (Bool-cases (a == c)) [
  | inl e ↦ rw e (tt, split-All c P r h.1)
  | inr e ↦
      rw e (All-push_front (All P) P a (split c r) (λ p q k. (q, k)) tt h.0 (split-All c P r h.1))
]
