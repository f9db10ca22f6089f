-- ===== src/Prelude/Order.antt =====
-- The order of Rust on strings, byte by byte, and sorting by a text, as `sort_by` does: stable.
use mathlib.Core.Path.{◌≡◌, refl, ◌∙◌}
use mathlib.Core.Logic.{inl, inr}
use mathlib.Core.Bool.{Bool, true, false, ◌&&◌, ◌||◌}
use mathlib.Core.List.{List, [], ◌∷◌, map, Perm}
use mathlib.Core.List.Perm
use native.Mathlib.Omega.{arith}
use tauri_plugin_sqlite.Prelude.Tests.{ltb, ◌==◌, if◌then◌else◌, Bool-cases}
use tauri_plugin_sqlite.Prelude.Texts.{Text, text_eq}
use tauri_plugin_sqlite.Prelude.Maps.{text_eq_comm}
use tauri_plugin_sqlite.Prelude.Lists.{All, All-imp}

-- `a < b`
unfoldable pub text_ltb : Text → Text → Bool
text_ltb [] [] = false
text_ltb [] (b ∷ s) = true
text_ltb (a ∷ r) [] = false
text_ltb (a ∷ r) (b ∷ s) = ltb a b || (a == b && text_ltb r s)

pub text_ltb-irreflexive : (s : Text) → text_ltb s s ≡ false
unfolding text_ltb
text_ltb-irreflexive [] = refl
text_ltb-irreflexive (a ∷ r) = ground (arith, text_ltb-irreflexive r)

pub text_ltb-transitive :
    (s t u : Text) → text_ltb s t ≡ true → text_ltb t u ≡ true → text_ltb s u ≡ true
unfolding text_ltb
text_ltb-transitive [] [] [] h k = h
text_ltb-transitive [] (b ∷ t) [] h k = k
text_ltb-transitive [] t (c ∷ u) h k = refl
text_ltb-transitive (a ∷ s) [] u h k = cc
text_ltb-transitive (a ∷ s) (b ∷ t) [] h k = k
text_ltb-transitive (a ∷ s) (b ∷ t) (c ∷ u) h k = ground (arith, text_ltb-transitive s t u)

-- Of two different texts one is before the other.
pub text_ltb-total : (s t : Text) → text_eq s t ≡ false → text_ltb s t ≡ false → text_ltb t s ≡ true
unfolding text_ltb text_eq
text_ltb-total [] [] d h = cc
text_ltb-total [] (b ∷ t) d h = cc
text_ltb-total (a ∷ s) [] d h = refl
text_ltb-total (a ∷ s) (b ∷ t) d h = ground (arith, text_ltb-total s t)

module _ {A : Type 0} (key : A → Text) where
  -- In front of the first element that is not before it.
  unfoldable pub insert_by : A → List A → List A
  insert_by x [] = x ∷ []
  insert_by x (y ∷ ys) =
      let rest = insert_by x ys in if text_ltb (key y) (key x) then y ∷ rest else x ∷ y ∷ ys

  -- `xs.sort_by(|a, b| key(a).cmp(&key(b)))`
  unfoldable pub sort_by : List A → List A
  sort_by [] = []
  sort_by (x ∷ xs) = insert_by x (sort_by xs)

-- Each text is before the next one, and so before all behind it.
unfoldable pub Ascending : List Text → Type 0
Ascending [] = Unit
Ascending (t ∷ ts) = All (λ u. text_ltb t u ≡ true) ts × Ascending ts

-- No text is there twice.
unfoldable pub Unique : List Text → Type 0
Unique [] = Unit
Unique (t ∷ ts) = All (λ u. text_eq t u ≡ false) ts × Unique ts

module _ {A : Type 0} (key : A → Text) where
  insert_by-All :
      (P : Text → Type 0) (x : A) (ys : List A)
      → P (key x)
      → All P (map key ys)
      → All P (map key (insert_by key x ys))
  unfolding insert_by
  insert_by-All P x [] p h = (p, tt)
  insert_by-All P x (y ∷ ys) p h = elim (Bool-cases (text_ltb (key y) (key x))) [
    | inl e ↦ rw e (h.0, insert_by-All P x ys p h.1)
    | inr e ↦ rw e (p, h)
  ]

  pub sort_by-All :
      (P : Text → Type 0) (xs : List A) → All P (map key xs) → All P (map key (sort_by key xs))
  unfolding sort_by
  sort_by-All P [] h = tt
  sort_by-All P (x ∷ xs) h = insert_by-All P x (sort_by key xs) h.0 (sort_by-All P xs h.1)

  insert_by-All_back :
      (P : Text → Type 0) (x : A) (ys : List A)
      → All P (map key (insert_by key x ys))
      → P (key x) × All P (map key ys)
  unfolding insert_by
  insert_by-All_back P x [] h = h
  insert_by-All_back P x (y ∷ ys) h = elim (Bool-cases (text_ltb (key y) (key x))) [
    | inl e ↦
        let found : All P (map key (y ∷ insert_by key x ys)) = rw (insert_by, e) at h in
        let rest = insert_by-All_back P x ys found.1 in (rest.0, (found.0, rest.1))
    | inr e ↦ rw (insert_by, e) at h
  ]

  pub sort_by-All_back :
      (P : Text → Type 0) (xs : List A) → All P (map key (sort_by key xs)) → All P (map key xs)
  unfolding sort_by
  sort_by-All_back P [] h = tt
  sort_by-All_back P (x ∷ xs) h =
      let back = insert_by-All_back P x (sort_by key xs) h in (back.0, sort_by-All_back P xs back.1)

  insert_by-Ascending :
      (x : A) (ys : List A)
      → All (λ u. text_eq (key x) u ≡ false) (map key ys)
      → Ascending (map key ys)
      → Ascending (map key (insert_by key x ys))
  unfolding insert_by Ascending
  insert_by-Ascending x [] d h = (tt, tt)
  insert_by-Ascending x (y ∷ ys) d h = elim (Bool-cases (text_ltb (key y) (key x))) [
    | inl e ↦ rw e (
      insert_by-All (λ u. text_ltb (key y) u ≡ true) x ys e h.0,
      insert_by-Ascending x ys d.1 h.1,
    )
    | inr e ↦
        let first = text_ltb-total (key y) (key x) (text_eq_comm (key y) (key x) ∙ d.0) e in
        rw e
          ((first, All-imp (map key ys) (λ u. text_ltb-transitive (key x) (key y) u first) h.0), h)
  ]

  -- Sorting by a text that differs from element to element leaves the texts ascending.
  pub sort_by-Ascending : (xs : List A) → Unique (map key xs) → Ascending (map key (sort_by key xs))
  unfolding sort_by Ascending Unique
  sort_by-Ascending [] h = tt
  sort_by-Ascending (x ∷ xs) h =
      insert_by-Ascending x (sort_by key xs) (sort_by-All (λ u. text_eq (key x) u ≡ false) xs h.0)
        (sort_by-Ascending xs h.1)

  insert_by-Perm : (x : A) (ys : List A) → Perm (insert_by key x ys) (x ∷ ys)
  unfolding insert_by
  insert_by-Perm x [] = Perm.refl (x ∷ [])
  insert_by-Perm x (y ∷ ys) = elim (Bool-cases (text_ltb (key y) (key x))) [
    | inl e ↦ rw e (Perm.trans (Perm.cons y (insert_by-Perm x ys)) (Perm.swap x y ys))
    | inr e ↦ rw e (Perm.refl (x ∷ y ∷ ys))
  ]

  pub sort_by-Perm : (xs : List A) → Perm (sort_by key xs) xs
  unfolding sort_by
  sort_by-Perm [] = Perm.refl []
  sort_by-Perm (x ∷ xs) =
      Perm.trans (insert_by-Perm x (sort_by key xs)) (Perm.cons x (sort_by-Perm xs))
