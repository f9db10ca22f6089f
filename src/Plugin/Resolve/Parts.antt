-- ===== src/Plugin/Resolve/Parts.antt =====
-- What the tests on a path mean, in terms of its text and its parts.
use tauri_plugin_sqlite.Prelude.{
  Bool, true, false, ◌&&◌, ◌||◌, ◌==◌, ==_iff, List, [], ◌∷◌, ◌++◌, All, any, Text, codes, text_eq,
  text_eq→≡, starts_with, contains, FsPath, prefix, path_starts_with, ◌≡◌, ◌⊎◌, refl, sym, ap, ◌∙◌,
  inl, inr, Bool-cases,
}
use tauri_plugin_sqlite.Plugin.Resolve.{is_memory_path}

-- `path` is inside of `base`: its parts are those of `base` and others behind them.
abbrev pub IsInside : FsPath → FsPath → Type 0
IsInside base path =
    (path.absolute ≡ base.absolute) × ((rest : List Text) × (path.parts ≡ base.parts ++ rest))

-- The names of in-memory databases.
abbrev pub IsMemoryName : Text → Type 0
IsMemoryName path =
    (path ≡ codes ":memory:")
    ⊎ ((rest : Text) × (path ≡ codes "file::memory:" ++ rest))
    ⊎ (((rest : Text) × (path ≡ codes "file:" ++ rest))
        × ((front back : Text) × (path ≡ front ++ (codes "mode=memory" ++ back))))

both_true : (a b : Bool) → (a && b) ≡ true → (a ≡ true) × (b ≡ true)
both_true true b h = (refl, h)
both_true false b h = absurd cc

one_true : (a b : Bool) → (a || b) ≡ true → (a ≡ true) ⊎ (b ≡ true)
one_true true b h = inl refl
one_true false b h = inr h

both_false : (a b : Bool) → (a || b) ≡ false → (a ≡ false) × (b ≡ false)
both_false true b h = absurd cc
both_false false b h = (refl, h)

pub any-All :
    {A : Type 0} (p : A → Bool) (xs : List A) → any p xs ≡ false → All (λ x. p x ≡ false) xs
any-All p [] h = tt
any-All p (x ∷ xs) h =
    let (first, later) = both_false (p x) (any p xs) h in (first, any-All p xs later)

starts_with-split : (p t : Text) → starts_with p t ≡ true → (rest : Text) × (t ≡ p ++ rest)
unfolding starts_with
starts_with-split [] t h = (t, refl)
starts_with-split (c ∷ p) [] h = absurd cc
starts_with-split (c ∷ p) (d ∷ t) h =
    let (same, later) = both_true (c == d) (starts_with p t) h in
    let (rest, is) = starts_with-split p t later in let e = (==_iff c d).0 same in (rest, cc)

contains-split :
    (p t : Text) → contains p t ≡ true → (front back : Text) × (t ≡ front ++ (p ++ back))
unfolding contains
contains-split [] [] h = ([], [], refl)
contains-split (c ∷ p) [] h = absurd cc
contains-split p (d ∷ t) h = elim (one_true (starts_with p (d ∷ t)) (contains p t) h) [
  | inl here ↦ let (back, is) = starts_with-split p (d ∷ t) here in ([], back, is)
  | inr later ↦
      let (front, back, is) = contains-split p t later in (d ∷ front, back, ap (λ r. d ∷ r) is)
]

prefix-split : (bs ps : List Text) → prefix bs ps ≡ true → (rest : List Text) × (ps ≡ bs ++ rest)
unfolding prefix
prefix-split [] ps h = (ps, refl)
prefix-split (b ∷ bs) [] h = absurd cc
prefix-split (b ∷ bs) (p ∷ ps) h =
    let (same, later) = both_true (text_eq b p) (prefix bs ps) h in
    let (rest, is) = prefix-split bs ps later in let e = text_eq→≡ b p same in (rest, cc)

pub path_starts_with-IsInside :
    (base path : FsPath) → path_starts_with base path ≡ true → IsInside base path
unfolding path_starts_with
path_starts_with-IsInside base path h = elim (Bool-cases base.absolute) [
  | inl e ↦
      let (root, parts) = both_true path.absolute (prefix base.parts path.parts) (rw e at h) in
      (root ∙ sym e, prefix-split base.parts path.parts parts)
  | inr e ↦ elim (Bool-cases path.absolute) [
    | inl f ↦ absurd (let k : false ≡ true = rw f at (rw e at h) in cc)
    | inr f ↦ (f ∙ sym e, prefix-split base.parts path.parts (rw f at (rw e at h)))
  ]
]

pub is_memory_path-IsMemoryName : (path : Text) → is_memory_path path ≡ true → IsMemoryName path
unfolding is_memory_path
is_memory_path-IsMemoryName path h =
    elim (one_true (text_eq path (codes ":memory:"))
      (starts_with (codes "file::memory:") path
        || (starts_with (codes "file:") path && contains (codes "mode=memory") path))
      h) [
        | inl e ↦ inl (text_eq→≡ path (codes ":memory:") e)
        | inr k ↦
            elim (one_true (starts_with (codes "file::memory:") path)
              (starts_with (codes "file:") path && contains (codes "mode=memory") path) k) [
                | inl e ↦ inr (inl (starts_with-split (codes "file::memory:") path e))
                | inr m ↦
                    let (file, mode) =
                      both_true (starts_with (codes "file:") path)
                        (contains (codes "mode=memory") path) m in
                    inr (
                      inr (
                        starts_with-split (codes "file:") path file,
                        contains-split (codes "mode=memory") path mode,
                      ))
              ]
      ]
