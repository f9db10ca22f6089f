-- ===== src/ConnMgr/Attached/Schemas.antt =====
-- The schemas that a connection has attached, through attaching, errors and `detach_all`.
use tauri_plugin_sqlite.Prelude.{
  true, false, List, [], ◌∷◌, ◌++◌, map, Text, text_eq, text_eq_refl, any, All, All-imp,
  if◌then◌else◌, Result, ok, err, ◌>>=◌, ◌≡◌, refl, ◌∙◌, ap, sym, subst, arith, append_assoc,
  append-nil, ◌⊎◌, inl, inr, Bool-cases, Result-cases,
}
use tauri_plugin_sqlite.ConnMgr.{ConnError, cannot_attach_read_write_to_reader, invalid_schema_name}
use tauri_plugin_sqlite.ConnMgr.Database.{Sqlx}
use tauri_plugin_sqlite.ConnMgr.Attached.{
  Store, AttachedSpec, path_of, attach_sql, detach_sql, is_read_write, is_valid_schema_name,
  attach_readers, detach_loop,
}

-- The list without the first entry that is the name.
unfoldable pub remove_name : Text → List Text → List Text
remove_name n [] = []
remove_name n (m ∷ ms) = let rest = remove_name n ms in if text_eq n m then ms else m ∷ rest

-- SQLite's documentation of ATTACH and DETACH: a connection has a list of attached schemas, with
-- different names. ATTACH adds the schema at the end, and fails if the name is in use. DETACH takes
-- the schema away. A statement that fails changes nothing. The names are those that pass the check.
pub record Attaches {P C : Type 0} (sqlx : Sqlx P C) : Type 0 where
  pub attached : C → List Text
  pub attach_adds :
      (path name : Text) (c : C)
      → is_valid_schema_name name ≡ true
      → (sqlx.execute (attach_sql path name) c).0 ≡ ok tt
      → attached (sqlx.execute (attach_sql path name) c).1 ≡ attached c ++ name ∷ []
  pub attach_new :
      (path name : Text) (c : C)
      → is_valid_schema_name name ≡ true
      → (sqlx.execute (attach_sql path name) c).0 ≡ ok tt
      → any (text_eq name) (attached c) ≡ false
  pub attach_fails :
      (path name m : Text) (c : C)
      → (sqlx.execute (attach_sql path name) c).0 ≡ err m
      → attached (sqlx.execute (attach_sql path name) c).1 ≡ attached c
  pub detach_removes :
      (name : Text) (c : C)
      → is_valid_schema_name name ≡ true
      → (sqlx.execute (detach_sql name) c).0 ≡ ok tt
      → attached (sqlx.execute (detach_sql name) c).1 ≡ remove_name name (attached c)

abbrev pub NotIn : List Text → Text → Type 0
NotIn names name = any (text_eq name) names ≡ false

remove_name-append :
    (n : Text) (xs ys : List Text) → NotIn xs n → remove_name n (xs ++ n ∷ ys) ≡ xs ++ ys
unfolding remove_name
remove_name-append n [] ys h = rw (text_eq_refl n) refl
remove_name-append n (x ∷ xs) ys h = ground (arith, remove_name-append n xs ys)

NotIn-append : (n : Text) (xs ys : List Text) → NotIn (xs ++ ys) n → NotIn xs n
NotIn-append n [] ys h = refl
NotIn-append n (x ∷ xs) ys h = ground (arith, NotIn-append n xs ys)

abbrev pub IsSchema : Text → Type 0
IsSchema name = is_valid_schema_name name ≡ true

-- Why the loop of the reader stops at a spec.
abbrev pub Stops : AttachedSpec → ConnError → Type 0
Stops spec e =
    ((e ≡ invalid_schema_name spec.schema_name) × (is_valid_schema_name spec.schema_name ≡ false))
    ⊎ ((e ≡ cannot_attach_read_write_to_reader) × (is_read_write spec ≡ true))
    ⊎ ((m : Text) × (e ≡ ConnError.sqlx m))

abbrev pub names_of : List AttachedSpec → List Text
names_of specs = map (λ s. AttachedSpec.schema_name s) specs

pub schemas-valid :
    (specs : List AttachedSpec)
    → All (λ s. (is_valid_schema_name s.schema_name ≡ true) × (is_read_write s ≡ false)) specs
    → All IsSchema (names_of specs)
schemas-valid [] h = tt
schemas-valid (s ∷ specs) h = (h.0.0, schemas-valid specs h.1)

module _ {P C : Type 0} (sqlx : Sqlx P C) (sqlite : Attaches sqlx) where
  abbrev attach : Store P → AttachedSpec → C → Result Text (Unit {0}) × C
  attach store spec c = sqlx.execute (attach_sql (path_of store spec.database) spec.schema_name) c

  -- The ways through one turn of the loop.
  attach_readers-cases :
      (store : Store P) (spec : AttachedSpec) (specs : List AttachedSpec) (c : C)
      → let out = attach_readers sqlx store (spec ∷ specs) c in
        ((e : ConnError) × (out.0 ≡ err e)
          × Stops spec e
          × (sqlite.attached out.1 ≡ sqlite.attached c))
        ⊎ ((is_valid_schema_name spec.schema_name ≡ true)
            × (is_read_write spec ≡ false)
            × ((attach store spec c).0 ≡ ok tt)
            × (out ≡ (
              (attach_readers sqlx store specs (attach store spec c).1).0 >>= λ names.
                  ok (spec.schema_name ∷ names),
              (attach_readers sqlx store specs (attach store spec c).1).1,
            )))
  unfolding attach_readers
  attach_readers-cases store spec specs c =
      elim (Bool-cases (is_valid_schema_name spec.schema_name)) [
        | inr v ↦ inl (
          invalid_schema_name spec.schema_name,
          rw (attach_readers, v) refl,
          inl (refl, v),
          rw (attach_readers, v) refl,
        )
        | inl v ↦ elim (Bool-cases (is_read_write spec)) [
          | inl w ↦ inl (
            cannot_attach_read_write_to_reader,
            rw (attach_readers, v) (rw w refl),
            inr (inl (refl, w)),
            rw (attach_readers, v) (rw w refl),
          )
          | inr w ↦ elim (Result-cases (attach store spec c).0) [
            | inr (m, a) ↦ inl (
              ConnError.sqlx m,
              rw (attach_readers, v) (rw w (rw a refl)),
              inr (inr (m, refl)),
              rw (attach_readers, v)
                  (rw w (
                    rw a
                      (sqlite.attach_fails (path_of store spec.database) spec.schema_name m c a))),
            )
            | inl (u, a) ↦ inr (v, w, a, rw (attach_readers, v) (rw w (rw a refl)))
          ]
        ]
      ]

  abbrev pub Attached : List AttachedSpec → C → Result ConnError (List Text) × C → Type 0
  Attached specs c out =
      (out.0 ≡ ok (names_of specs))
      × (sqlite.attached out.1 ≡ sqlite.attached c ++ names_of specs)
      × All (NotIn (sqlite.attached c)) (names_of specs)
      × All (λ s. (is_valid_schema_name s.schema_name ≡ true) × (is_read_write s ≡ false)) specs

  abbrev pub Stopped : List AttachedSpec → C → Result ConnError (List Text) × C → Type 0
  Stopped specs c out =
      (e : ConnError) × (before : List AttachedSpec) × (spec : AttachedSpec) × (after : List
        AttachedSpec)
      × (out.0 ≡ err e)
      × (specs ≡ before ++ spec ∷ after)
      × Stops spec e
      × (sqlite.attached out.1 ≡ sqlite.attached c ++ names_of before)

  -- The loop attaches all schemas, or those before the spec that stops it.
  pub attach_readers-Attached :
      (store : Store P) (specs : List AttachedSpec) (c : C)
      → Attached specs c (attach_readers sqlx store specs c)
        ⊎ Stopped specs c (attach_readers sqlx store specs c)
  unfolding attach_readers
  attach_readers-Attached store [] c = inl (refl, sym (append-nil (sqlite.attached c)), tt, tt)
  attach_readers-Attached store (spec ∷ specs) c = elim (attach_readers-cases store spec specs c) [
    | inl (e, out, stops, same) ↦
        inr (e, [], spec, specs, out, refl, stops, same ∙ sym (append-nil (sqlite.attached c)))
    | inr (v, w, a, out) ↦
        let d = (attach store spec c).1 in
        let adds = sqlite.attach_adds (path_of store spec.database) spec.schema_name c v a in
        let new = sqlite.attach_new (path_of store spec.database) spec.schema_name c v a in
        elim (attach_readers-Attached store specs d) [
          | inl (is, now, fresh, valid) ↦ inl (
            ap (λ o. o.0) out ∙ ap (λ r. r >>= λ names. ok (spec.schema_name ∷ names)) is,
            ap (λ o. sqlite.attached o.1) out
                ∙ now
                ∙ ap (λ l. l ++ names_of specs) adds
                ∙ append_assoc (sqlite.attached c) (spec.schema_name ∷ []) (names_of specs),
            (
              new,
              All-imp (names_of specs)
                  (λ n k.
                    NotIn-append n (sqlite.attached c) (spec.schema_name ∷ [])
                      (subst (λ l. NotIn l n) adds k))
                  fresh,
            ),
            ((v, w), valid),
          )
          | inr (e, before, s, after, is, parts, stops, now) ↦ inr (
            e,
            spec ∷ before,
            s,
            after,
            ap (λ o. o.0) out ∙ ap (λ r. r >>= λ names. ok (spec.schema_name ∷ names)) is,
            ap (◌∷◌ spec) parts,
            stops,
            ap (λ o. sqlite.attached o.1) out
                ∙ now
                ∙ ap (λ l. l ++ names_of before) adds
                ∙ append_assoc (sqlite.attached c) (spec.schema_name ∷ []) (names_of before),
          )
        ]
  ]

  -- Detaching the names that were attached leaves what was there before.
  pub detach_loop-attached :
      (names base : List Text) (c : C)
      → sqlite.attached c ≡ base ++ names
      → All (NotIn base) names
      → All IsSchema names
      → (detach_loop sqlx names c).0 ≡ ok tt
      → sqlite.attached (detach_loop sqlx names c).1 ≡ base
  unfolding detach_loop
  detach_loop-attached [] base c h f v k = h ∙ append-nil base
  detach_loop-attached (n ∷ names) base c h f v k =
      elim (Result-cases (sqlx.execute (detach_sql n) c).0) [
        | inr (m, d) ↦
            let r : err (ConnError.sqlx m) ≡ ok tt = rw (detach_loop, d) at k in absurd cc
        | inl (u, d) ↦
            let c' = (sqlx.execute (detach_sql n) c).1 in
            let now : sqlite.attached c' ≡ base ++ names =
              sqlite.detach_removes n c v.0 d
              ∙ ap (remove_name n) h
              ∙ remove_name-append n base names f.0 in
            rw (detach_loop, d)
              (detach_loop-attached names base c' now f.1 v.1 (rw (detach_loop, d) at k))
      ]
