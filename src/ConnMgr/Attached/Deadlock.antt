-- ===== src/ConnMgr/Attached/Deadlock.antt =====
-- Calls of `acquire_writer_with_attached` that run at the same time, each waiting for one writer
-- after the other and holding those it has until it ends. A writer is named by its path: the
-- registry keeps one database for a path.
pub mod Progress
use tauri_plugin_sqlite.Prelude.{
  ℕ, zero, suc, ◌+◌, Bool, true, false, List, [], ◌∷◌, ◌++◌, map, Option, none, Text, text_eq, any,
  length, All, All-imp, ◌≡◌, ◌≢◌, ◌⊎◌, inl, inr, refl, ◌∙◌, ap, sym, subst, arith, Ascending,
  text_ltb,
}
use tauri_plugin_sqlite.ConnMgr.Attached.{
  Store, AttachedSpec, path_of, db_entries, lock_order, first_duplicate,
}
use tauri_plugin_sqlite.ConnMgr.Attached.LockOrder.{lock_order-Ascending, first_duplicate-Unique}

-- A call under way.
pub record Task : Type 0 where
  pub held : List Text
  pub waiting : List Text

abbrev pub holds : Text → Task → Bool
holds p t = any (text_eq p) t.held

-- A call gets the next writer, which no call holds, or it ends and drops what it holds.
pub data Step : List Task → List Task → Type 0 where
  acquire :
      (before after : List Task) (t : Task) (p : Text) (ps : List Text)
      → t.waiting ≡ p ∷ ps
      → any (holds p) (before ++ t ∷ after) ≡ false
      → Step (before ++ t ∷ after) (before ++ record { held = p ∷ t.held; waiting = ps } ∷ after)
  finish :
      (before after : List Task) (t : Task)
      → t.waiting ≡ []
      → Step (before ++ t ∷ after) (before ++ after)

-- What may happen besides: a call fails where it is, or a call comes, past its own check for
-- duplicates.
pub data Event : List Task → List Task → Type 1 where
  step : {s u : List Task} → Step s u → Event s u
  fail : (before after : List Task) (t : Task) → Event (before ++ t ∷ after) (before ++ after)
  arrive :
      {P : Type 0} (store : Store P) (main_db : ℕ) (specs : List AttachedSpec) (s : List Task)
      → first_duplicate [] (map (path_of store) (db_entries main_db specs)) ≡ none
      → Event s
          (record { held = []; waiting = map (path_of store) (lock_order store main_db specs) } ∷ s)

pub data Reachable : List Task → Type 1 where
  start : Reachable []
  later : {s u : List Task} → Reachable s → Event s u → Reachable u

-- So many steps in a row.
pub data Run : ℕ → List Task → List Task → Type 0 where
  done : (s : List Task) → Run 0 s s
  more : {n : ℕ} {s u v : List Task} → Step s u → Run n u v → Run (suc n) s v

-- The steps that a system still has to make.
unfoldable pub remaining : List Task → ℕ
remaining [] = 0
remaining (t ∷ ts) = suc (length t.waiting) + remaining ts

-- What a call holds is before what it waits for, which is ascending.
unfoldable pub Ordered : Task → Type 0
Ordered t = All (λ h. All (λ w. text_ltb h w ≡ true) t.waiting) t.held × Ascending t.waiting

remaining-append : (s u : List Task) → remaining (s ++ u) ≡ remaining s + remaining u
unfolding remaining
remaining-append [] u = omega arith
remaining-append (t ∷ s) u = omega (arith, remaining-append s u)

-- Every step brings the end nearer by one.
remaining-Step : {s u : List Task} → Step s u → remaining s ≡ suc (remaining u)
unfolding remaining
remaining-Step (acquire before after t p ps w f) =
    let r : Task = record { held = p ∷ t.held; waiting = ps } in
    let counted = ap length w in
    omega (arith, remaining-append before (t ∷ after), remaining-append before (r ∷ after), counted)
remaining-Step (finish before after t w) =
    let counted = ap length w in
    omega (arith, remaining-append before (t ∷ after), remaining-append before after, counted)

pub remaining-Run : {n : ℕ} {s u : List Task} → Run n s u → n + remaining u ≡ remaining s
remaining-Run (done s) = omega arith
remaining-Run (more one run) = omega (arith, remaining-Step one, remaining-Run run)

All-middle :
    (Q : Task → Type 0) (before after : List Task) (t : Task)
    → All Q (before ++ t ∷ after)
    → Q t × All Q (before ++ after) × ((r : Task) → Q r → All Q (before ++ r ∷ after))
All-middle Q [] after t h = (h.0, h.1, λ r q. (q, h.1))
All-middle Q (b ∷ before) after t h =
    let rest = All-middle Q before after t h.1 in (rest.0, (h.0, rest.1), λ r q. (h.0, rest.2 r q))

acquire-Ordered :
    (t : Task) (p : Text) (ps : List Text)
    → t.waiting ≡ p ∷ ps
    → Ordered t
    → Ordered (record { held = p ∷ t.held; waiting = ps })
unfolding Ordered Ascending
acquire-Ordered t p ps w o =
    let at = subst (λ l. All (λ h. All (λ x. text_ltb h x ≡ true) l) t.held × Ascending l) w o in
    ((at.1.0, All-imp t.held (λ h k. k.1) at.0), at.1.1)

pub Step-Ordered : {s u : List Task} → Step s u → All Ordered s → All Ordered u
Step-Ordered (acquire before after t p ps w f) h =
    let parts = All-middle Ordered before after t h in
    parts.2 (record { held = p ∷ t.held; waiting = ps }) (acquire-Ordered t p ps w parts.0)
Step-Ordered (finish before after t w) h = (All-middle Ordered before after t h).1

pub Run-Ordered : {n : ℕ} {s u : List Task} → Run n s u → All Ordered s → All Ordered u
Run-Ordered (done s) h = h
Run-Ordered (more one run) h = Run-Ordered run (Step-Ordered one h)

pub Reachable-Ordered : {s : List Task} → Reachable s → All Ordered s
unfolding Ordered
Reachable-Ordered start = tt
Reachable-Ordered (later r (step one)) = Step-Ordered one (Reachable-Ordered r)
Reachable-Ordered (later r (fail before after t)) =
    (All-middle Ordered before after t (Reachable-Ordered r)).1
Reachable-Ordered (later r (arrive store main_db specs s h)) = (
  (
    tt,
    lock_order-Ascending store main_db specs
        (first_duplicate-Unique [] (map (path_of store) (db_entries main_db specs)) h),
  ),
  Reachable-Ordered r,
)
