-- ===== src/ConnMgr/Attached/Deadlock/Progress.antt =====
-- Of the calls that all wait, the one that waits for the last path can go on.
use tauri_plugin_sqlite.Prelude.{
  ℕ, ◌≤◌, true, false, List, [], ◌∷◌, ◌++◌, Text, text_eq, any, text_eq→≡, All, All-imp, ◌≡◌, ◌⊎◌,
  inl, inr, refl, ◌∙◌, ap, sym, subst, arith, text_ltb, text_ltb-transitive, text_ltb-irreflexive,
  Bool-cases,
}
use tauri_plugin_sqlite.ConnMgr.Attached.Deadlock.{
  Task, holds, Step, acquire, finish, Reachable, Run, remaining, Ordered, Run-Ordered,
  remaining-Run, Reachable-Ordered,
}

-- The call waits for a path that is not behind `p`.
abbrev WaitsUpTo : Text → Task → Type 0
WaitsUpTo p t = (q : Text) × (qs : List Text) × (t.waiting ≡ q ∷ qs) × (text_ltb p q ≡ false)

abbrev Place : List Task → Task → Type 0
Place ts t = (before : List Task) × (after : List Task) × (ts ≡ before ++ t ∷ after)

abbrev Finished : List Task → Type 0
Finished ts = (t : Task) × Place ts t × (t.waiting ≡ [])

abbrev Led : List Task → Type 0
Led ts =
    (t : Task) × (p : Text) × (ps : List Text) × Place ts t
    × (t.waiting ≡ p ∷ ps)
    × All (WaitsUpTo p) ts

waiting-cases : (l : List Text) → (l ≡ []) ⊎ ((p : Text) × (ps : List Text) × (l ≡ p ∷ ps))
waiting-cases [] = inl refl
waiting-cases (p ∷ ps) = inr (p, ps, refl)

Place-behind : (x : Task) (ts : List Task) (t : Task) → Place ts t → Place (x ∷ ts) t
Place-behind x ts t (before, after, e) = (x ∷ before, after, ap (◌∷◌ x) e)

not-before : (p q r : Text) → text_ltb p q ≡ true → text_ltb p r ≡ false → text_ltb q r ≡ false
not-before p q r e n = elim (Bool-cases (text_ltb q r)) [
  | inl k ↦ let t = text_ltb-transitive p q r e k in absurd cc
  | inr k ↦ k
]

leader-cons :
    (x : Task) (ts : List Task) (q : Text) (qs : List Text)
    → x.waiting ≡ q ∷ qs
    → Led ts
    → Led (x ∷ ts)
leader-cons x ts q qs w (t, p, ps, at, v, behind) = elim (Bool-cases (text_ltb p q)) [
  | inr e ↦ (t, p, ps, Place-behind x ts t at, v, ((q, qs, w, e), behind))
  | inl e ↦ (
    x,
    q,
    qs,
    ([], ts, refl),
    w,
    (
      (q, qs, w, text_ltb-irreflexive q),
      All-imp ts (λ u (r, rs, k, n). (r, rs, k, not-before p q r e n)) behind,
    ),
  )
]

leader : (t : Task) (ts : List Task) → Finished (t ∷ ts) ⊎ Led (t ∷ ts)
leader t [] = elim (waiting-cases t.waiting) [
  | inl w ↦ inl (t, ([], [], refl), w)
  | inr (q, qs, w) ↦ inr (t, q, qs, ([], [], refl), w, ((q, qs, w, text_ltb-irreflexive q), tt))
]
leader t (u ∷ us) = elim (waiting-cases t.waiting) [
  | inl w ↦ inl (t, ([], u ∷ us, refl), w)
  | inr (q, qs, w) ↦ elim (leader u us) [
    | inl (r, at, v) ↦ inl (r, Place-behind t (u ∷ us) r at, v)
    | inr led ↦ inr (leader-cons t (u ∷ us) q qs w led)
  ]
]

not_among :
    (p q : Text) (held : List Text)
    → text_ltb p q ≡ false
    → All (λ h. text_ltb h q ≡ true) held
    → any (text_eq p) held ≡ false
not_among p q [] e h = refl
not_among p q (x ∷ held) e h = elim (Bool-cases (text_eq p x)) [
  | inl k ↦ let at = ap (λ y. text_ltb y q) (text_eq→≡ p x k) in let before = h.0 in absurd cc
  | inr k ↦ rw k (not_among p q held e h.1)
]

-- A call that waits for a path up to `p` holds only paths before `p`.
waits-holds : (p : Text) (t : Task) → Ordered t → WaitsUpTo p t → holds p t ≡ false
unfolding Ordered
waits-holds p t o (q, qs, w, e) =
    let before = subst (λ l. All (λ h. All (λ x. text_ltb h x ≡ true) l) t.held) w o.0 in
    not_among p q t.held e (All-imp t.held (λ h k. k.0) before)

none-holds :
    (p : Text) (ts : List Task) → All Ordered ts → All (WaitsUpTo p) ts → any (holds p) ts ≡ false
none-holds p [] o w = refl
none-holds p (t ∷ ts) o w = rw (waits-holds p t o.0 w.0) (none-holds p ts o.1 w.1)

-- Some call can always go on.
progress : (t : Task) (ts : List Task) → All Ordered (t ∷ ts) → (u : List Task) × Step (t ∷ ts) u
progress t ts o = elim (leader t ts) [
  | inl (r, (before, after, e), w) ↦
      (before ++ after, subst (λ l. Step l (before ++ after)) (sym e) (finish before after r w))
  | inr (r, p, ps, (before, after, e), w, behind) ↦
      let free = ap (any (holds p)) (sym e) ∙ none-holds p (t ∷ ts) o behind in
      let u = before ++ record { held = p ∷ r.held; waiting = ps } ∷ after in
      (u, subst (λ l. Step l u) (sym e) (acquire before after r p ps w free))
]

-- Calls of `acquire_writer_with_attached` do not block each other for good. From every state that
-- calls reach, with any databases and specs, coming at any time, failing at any place and in any
-- interleaving, a run of steps that get a writer or end a call has at most as many steps as there
-- are writers waited for and calls together; and where it stops, either all calls have ended or one
-- of them can go on.
pub Reachable-Run-finishes :
    (s u : List Task) (n : ℕ)
    → Reachable s
    → Run n s u
    → (n ≤ remaining s) × ((u ≡ []) ⊎ ((v : List Task) × Step u v))
Reachable-Run-finishes s [] n r run = (omega (arith, remaining-Run run), inl refl)
Reachable-Run-finishes s (t ∷ ts) n r run =
    (omega (arith, remaining-Run run), inr (progress t ts (Run-Ordered run (Reachable-Ordered r))))
