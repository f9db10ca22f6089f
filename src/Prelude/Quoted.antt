-- ===== src/Prelude/Quoted.antt =====
-- Quoted texts of SQL: a quote inside is doubled.
use Prim.Native.Nat.{ℕ}
use mathlib.Core.Path.{◌≡◌, refl, ap, sym}
use mathlib.Core.Logic.{◌≢◌, inl, inr}
use mathlib.Core.Option.{Option, none, some}
use mathlib.Core.List.{[], ◌∷◌, ◌++◌}
use native.Mathlib.Omega.{arith}
use tauri_plugin_sqlite.Prelude.Tests.{◌==◌, ==_iff, Bool-cases, if◌then◌else◌}
use tauri_plugin_sqlite.Prelude.Texts.{Text}

-- `text.replace(q, qq)`, for a quote `q`.
unfoldable pub double : ℕ → Text → Text
double q [] = []
double q (c ∷ cs) = let rest = double q cs in if c == q then q ∷ q ∷ rest else c ∷ rest

abbrev with_char : ℕ → Option (Text × Text) → Option (Text × Text)
with_char c none = none
with_char c (some (t, rest)) = some (c ∷ t, rest)

-- SQL's rule, after an opening quote: up to the next quote that is not doubled. `none` means that
-- the text does not end.
unfoldable pub read_quoted : ℕ → Text → Option (Text × Text)
read_quoted q [] = none
read_quoted q (c ∷ []) = if c == q then some ([], []) else none
read_quoted q (c ∷ d ∷ r) =
    let doubled = with_char c (read_quoted q r) in
    let plain = with_char c (read_quoted q (d ∷ r)) in
    if c == q then (if d == q then doubled else some ([], d ∷ r)) else plain

-- The text does not begin with `c`.
abbrev pub NotBefore : ℕ → Text → Type 0
NotBefore c [] = Unit
NotBefore c (a ∷ r) = a ≢ c

read_quoted-plain :
    (q c : ℕ) (r p rest : Text)
    → c ≢ q
    → read_quoted q r ≡ some (p, rest)
    → read_quoted q (c ∷ r) ≡ some (c ∷ p, rest)
unfolding read_quoted
read_quoted-plain q c [] p rest h e = cc
read_quoted-plain q c (d ∷ r) p rest h e = ground arith

read_quoted-end :
    (q : ℕ) (rest : Text) → NotBefore q rest → read_quoted q (q ∷ rest) ≡ some ([], rest)
unfolding read_quoted
read_quoted-end q [] h = ground arith
read_quoted-end q (c ∷ r) h = ground arith

-- Doubling the quotes makes any text readable again.
pub read_quoted-double :
    (q : ℕ) (p rest : Text)
    → NotBefore q rest
    → read_quoted q (double q p ++ (q ∷ rest)) ≡ some (p, rest)
unfolding read_quoted double
read_quoted-double q [] rest h = read_quoted-end q rest h
read_quoted-double q (c ∷ p) rest h = elim (Bool-cases (c == q)) [
  | inl e ↦
      let same = (==_iff c q).0 e in
      rw e (
        rw ((==_iff q q).1 refl)
          (rw (read_quoted-double q p rest h) (ap (λ d. some (d ∷ p, rest)) (sym same))))
  | inr e ↦ rw e (
      read_quoted-plain q c (double q p ++ (q ∷ rest)) p rest (ground arith)
        (read_quoted-double q p rest h))
]
