-- ===== src/Prelude/Maps.antt =====
-- A map from texts: its entries, with different keys.
use mathlib.Core.Path.{◌≡◌, refl, sym, ap, ◌∙◌}
use mathlib.Core.Logic.{inl, inr}
use mathlib.Core.Bool.{true, false}
use mathlib.Core.Option.{Option, none, some}
use mathlib.Core.List.{List, [], ◌∷◌}
use native.Mathlib.Omega.{arith}
use tauri_plugin_sqlite.Prelude.Tests.{if◌then◌else◌, Bool-cases}
use tauri_plugin_sqlite.Prelude.Texts.{Text, text_eq, text_eq→≡, text_eq_refl}

abbrev pub Map : Type 0 → Type 0
Map A = List (Text × A)

pub text_eq_comm : (s t : Text) → text_eq s t ≡ text_eq t s
unfolding text_eq
text_eq_comm [] [] = refl
text_eq_comm [] (b ∷ t) = refl
text_eq_comm (a ∷ s) [] = refl
text_eq_comm (a ∷ s) (b ∷ t) = ground (arith, text_eq_comm s t)

module _ {A : Type 0} where
  unfoldable pub find : Text → Map A → Option A
  find k [] = none
  find k ((l, a) ∷ m) = if text_eq l k then some a else find k m

  -- Replaces the value of the key, or adds an entry.
  unfoldable pub put : Text → A → Map A → Map A
  put k a [] = (k, a) ∷ []
  put k a ((l, b) ∷ m) = if text_eq l k then (l, a) ∷ m else (l, b) ∷ put k a m

  unfoldable pub erase : Text → Map A → Map A
  erase k [] = []
  erase k ((l, b) ∷ m) = if text_eq l k then m else (l, b) ∷ erase k m

  unfoldable pub Distinct : Map A → Type 0
  Distinct [] = Unit
  Distinct ((k, a) ∷ m) = (find k m ≡ none) × Distinct m

  pub find-head :
      (k l : Text) (a b : A) (m : Map A) → text_eq l k ≡ true → find k ((l, a) ∷ m) ≡ some b → a ≡ b
  unfolding find
  find-head k l a b m e h = ground arith

  pub find-put : (k : Text) (a : A) (m : Map A) → find k (put k a m) ≡ some a
  unfolding find put
  find-put k a [] = rw (text_eq_refl k) refl
  find-put k a ((l, b) ∷ m) = elim (Bool-cases (text_eq l k)) [
    | inl e ↦ rw e (rw e refl)
    | inr e ↦ rw e (rw e (find-put k a m))
  ]

  pub find-put_other :
      (j k : Text) (a : A) (m : Map A) → text_eq k j ≡ false → find j (put k a m) ≡ find j m
  unfolding find put
  find-put_other j k a [] h = rw h refl
  find-put_other j k a ((l, b) ∷ m) h = elim (Bool-cases (text_eq l k)) [
    | inl e ↦ rw e (rw (text_eq→≡ l k e, h) refl)
    | inr e ↦ rw e (rw (find-put_other j k a m h) refl)
  ]

  pub find-erase_other :
      (j k : Text) (m : Map A) → text_eq k j ≡ false → find j (erase k m) ≡ find j m
  unfolding find erase
  find-erase_other j k [] h = refl
  find-erase_other j k ((l, b) ∷ m) h = elim (Bool-cases (text_eq l k)) [
    | inl e ↦ rw e (rw (text_eq→≡ l k e, h) refl)
    | inr e ↦ rw e (rw (find-erase_other j k m h) refl)
  ]

  pub find-erase : (k : Text) (m : Map A) → Distinct m → find k (erase k m) ≡ none
  unfolding find erase Distinct
  find-erase k [] d = refl
  find-erase k ((l, b) ∷ m) d = elim (Bool-cases (text_eq l k)) [
    | inl e ↦ rw e (ap (λ x. find x m) (sym (text_eq→≡ l k e)) ∙ d.0)
    | inr e ↦ rw e (rw e (find-erase k m d.1))
  ]

  pub put-Distinct : (k : Text) (a : A) (m : Map A) → Distinct m → Distinct (put k a m)
  unfolding find put Distinct
  put-Distinct k a [] d = (refl, tt)
  put-Distinct k a ((l, b) ∷ m) d = elim (Bool-cases (text_eq l k)) [
    | inl e ↦ rw e d
    | inr e ↦ rw e (find-put_other l k a m (text_eq_comm k l ∙ e) ∙ d.0, put-Distinct k a m d.1)
  ]

  pub erase-Distinct : (k : Text) (m : Map A) → Distinct m → Distinct (erase k m)
  unfolding find erase Distinct
  erase-Distinct k [] d = tt
  erase-Distinct k ((l, b) ∷ m) d = elim (Bool-cases (text_eq l k)) [
    | inl e ↦ rw e d.1
    | inr e ↦ rw e (find-erase_other l k m (text_eq_comm k l ∙ e) ∙ d.0, erase-Distinct k m d.1)
  ]
