-- ===== src/ConnMgr/Attached/LockOrder.antt =====
-- The order in which `acquire_writer_with_attached` acquires its writers.
use tauri_plugin_sqlite.Prelude.{
  ℕ, Bool, true, false, ◌||◌, List, [], ◌∷◌, map, Option, none, some, Text, text_eq, any,
  if◌then◌else◌, text_eq_comm, ◌++◌, sym, ap, inl, inr, Bool-cases, Ascending, Unique,
  sort_by-Ascending, All, All-imp, ◌≡◌, refl, ◌∙◌, arith,
}
use tauri_plugin_sqlite.ConnMgr.Attached.{
  Store, AttachedSpec, first_duplicate, path_of, lock_order, db_entries,
}

or-false : (a b : Bool) → (a || b) ≡ false → (a ≡ false) × (b ≡ false)
or-false a b h = ground arith

if_none :
    (b : Bool) (p : Text) (rest : Option Text)
    → (if b then some p else rest) ≡ none
    → (b ≡ false) × (rest ≡ none)
if_none true p rest h = cc
if_none false p rest h = (refl, h)

first_duplicate-step :
    (seen : List Text) (p : Text) (ps : List Text)
    → first_duplicate seen (p ∷ ps) ≡ none
    → (any (text_eq p) seen ≡ false) × (first_duplicate (p ∷ seen) ps ≡ none)
unfolding first_duplicate
first_duplicate-step seen p ps h =
    if_none (any (text_eq p) seen) p (first_duplicate (p ∷ seen) ps) h

-- No path that follows was seen.
first_duplicate-unseen :
    (seen paths : List Text)
    → first_duplicate seen paths ≡ none
    → All (λ u. any (text_eq u) seen ≡ false) paths
first_duplicate-unseen seen [] h = tt
first_duplicate-unseen seen (p ∷ ps) h =
    let step = first_duplicate-step seen p ps h in
    (
      step.0,
      All-imp ps (λ u k. (or-false (text_eq u p) (any (text_eq u) seen) k).1)
          (first_duplicate-unseen (p ∷ seen) ps step.1),
    )

pub first_duplicate-Unique :
    (seen paths : List Text) → first_duplicate seen paths ≡ none → Unique paths
unfolding Unique
first_duplicate-Unique seen [] h = tt
first_duplicate-Unique seen (p ∷ ps) h =
    let step = first_duplicate-step seen p ps h in
    (
      All-imp ps (λ u k. text_eq_comm p u ∙ (or-false (text_eq u p) (any (text_eq u) seen) k).0)
          (first_duplicate-unseen (p ∷ seen) ps step.1),
      first_duplicate-Unique (p ∷ seen) ps step.1,
    )

-- The path stands behind paths of which one is the same.
abbrev pub IsRepeated : Text → List Text → Type 0
IsRepeated path paths =
    (front back : List Text) × (paths ≡ front ++ path ∷ back) × (any (text_eq path) front ≡ true)

or_swap : (a b c : Bool) → ((a || b) || c) ≡ true → (b || (a || c)) ≡ true
or_swap a b c h = ground arith

first_duplicate-found :
    (seen paths : List Text) (path : Text)
    → first_duplicate seen paths ≡ some path
    → (front back : List Text) × (paths ≡ front ++ path ∷ back)
      × ((any (text_eq path) seen || any (text_eq path) front) ≡ true)
unfolding first_duplicate
first_duplicate-found seen [] path h = absurd cc
first_duplicate-found seen (p ∷ ps) path h = elim (Bool-cases (any (text_eq p) seen)) [
  | inl e ↦
      let same : p ≡ path = let k : some p ≡ some path = sym (rw e refl) ∙ h in cc in
      ([], ps, ap (λ q. q ∷ ps) same, rw (ap (λ q. any (text_eq q) seen) (sym same) ∙ e) refl)
  | inr e ↦
      let later : first_duplicate (p ∷ seen) ps ≡ some path = sym (rw e refl) ∙ h in
      let (front, back, is, there) = first_duplicate-found (p ∷ seen) ps path later in
      (
        p ∷ front,
        back,
        ap (λ l. p ∷ l) is,
        or_swap (text_eq path p) (any (text_eq path) seen) (any (text_eq path) front) there,
      )
]

pub first_duplicate-IsRepeated :
    (paths : List Text) (path : Text) → first_duplicate [] paths ≡ some path → IsRepeated path paths
first_duplicate-IsRepeated paths path h = first_duplicate-found [] paths path h

-- The writers are acquired in ascending order of their paths, so two calls never acquire two of them
-- in different orders.
pub lock_order-Ascending :
    {P : Type 0} (store : Store P) (main_db : ℕ) (specs : List AttachedSpec)
    → Unique (map (path_of store) (db_entries main_db specs))
    → Ascending (map (path_of store) (lock_order store main_db specs))
unfolding lock_order
lock_order-Ascending store main_db specs h =
    sort_by-Ascending (path_of store) (db_entries main_db specs) h
