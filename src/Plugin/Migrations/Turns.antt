-- ===== src/Plugin/Migrations/Turns.antt =====
-- The tasks that migrate databases do not meet: what a database sees of them are its own turns.
use tauri_plugin_sqlite.Prelude.{
  ◌≡◌, refl, sym, ap, ◌∙◌, subst, inl, inr, Bool, true, false, List, [], ◌∷◌, ◌++◌, some, arith,
  Text, text_eq, text_eq→≡, Map, find, put, find-put, find-put_other, if◌then◌else◌, Bool-cases,
  Option-cases, Result, ok, err, ℕ,
}
use tauri_plugin_sqlite.Observer.Broker.{map_option}
use tauri_plugin_sqlite.Plugin.Databases.{running}
use tauri_plugin_sqlite.Plugin.Migrations.{
  MigrationEvent, MigrationState, new_state, update_status, cache_event, modify, initial_states,
  Progress, emit_migration_event, running_event, last_event, last_status, begin_migrations,
  end_migrations, Turn, begins, ends, run_migrations_for_databases,
}

abbrev pub turn_path : Turn → Text
turn_path (begins q contended) = q
turn_path (ends q outcome) = q

-- The turns of one database.
unfoldable pub turns_of : Text → List Turn → List Turn
turns_of p [] = []
turns_of p (t ∷ ts) = let rest = turns_of p ts in if text_eq (turn_path t) p then t ∷ rest else rest

-- The events of one database.
unfoldable pub events_of : Text → List MigrationEvent → List MigrationEvent
events_of p [] = []
events_of p (e ∷ es) = let rest = events_of p es in if text_eq e.db_path p then e ∷ rest else rest

events_of-append :
    (p : Text) (xs ys : List MigrationEvent)
    → events_of p (xs ++ ys) ≡ events_of p xs ++ events_of p ys
unfolding events_of
events_of-append p [] ys = refl
events_of-append p (e ∷ xs) ys = elim (Bool-cases (text_eq e.db_path p)) [
  | inl h ↦ rw h (ap (◌∷◌ e) (events_of-append p xs ys))
  | inr h ↦ rw h (events_of-append p xs ys)
]

pub modify_self :
    (p : Text) (f : MigrationState → MigrationState) (states : Map MigrationState)
    → find p (modify p f states) ≡ map_option f (find p states)
unfolding modify
modify_self p f states = elim (Option-cases (find p states)) [
  | inl e ↦ rw (e, modify) e
  | inr (s, e) ↦ rw (e, modify) (find-put p (f s) states)
]

modify_other :
    (p q : Text) (f : MigrationState → MigrationState) (states : Map MigrationState)
    → text_eq q p ≡ false
    → find p (modify q f states) ≡ find p states
unfolding modify
modify_other p q f states h = elim (Option-cases (find q states)) [
  | inl e ↦ rw (e, modify) refl
  | inr (s, e) ↦ rw (e, modify) (find-put_other p q (f s) states h)
]

-- What the two turns do to the state of their own database.
abbrev pub begun : Text → Bool → MigrationState → MigrationState
begun p contended s =
    if contended
    then update_status running s
    else cache_event (running_event p) (update_status running s)

pub begin_migrations_self :
    (p : Text) (contended : Bool) (w : Progress)
    → find p (begin_migrations p contended w).states
      ≡ map_option (begun p contended) (find p w.states)
unfolding begin_migrations emit_migration_event
begin_migrations_self p true w = modify_self p (update_status running) w.states
begin_migrations_self p false w =
    modify_self p (cache_event (running_event p)) (modify p (update_status running) w.states)
    ∙ ap (map_option (cache_event (running_event p)))
        (modify_self p (update_status running) w.states)
    ∙ elim (Option-cases (find p w.states)) [ inl e ↦ rw e refl | inr (s, e) ↦ rw e refl ]

begin_migrations_other :
    (p q : Text) (contended : Bool) (w : Progress)
    → text_eq q p ≡ false
    → find p (begin_migrations q contended w).states ≡ find p w.states
unfolding begin_migrations emit_migration_event
begin_migrations_other p q true w h = modify_other p q (update_status running) w.states h
begin_migrations_other p q false w h =
    modify_other p q (cache_event (running_event q)) (modify q (update_status running) w.states) h
    ∙ modify_other p q (update_status running) w.states h

pub last_event_path : (p : Text) (outcome : Result Text ℕ) → (last_event p outcome).db_path ≡ p
last_event_path p (ok count) = refl
last_event_path p (err e) = refl

-- Two progresses look the same to one database.
abbrev pub Same : Text → Progress → Progress → Type 0
Same p v w = (find p v.states ≡ find p w.states) × (events_of p v.emitted ≡ events_of p w.emitted)

Same-emitted :
    (p : Text) (xs ys zs : List MigrationEvent)
    → events_of p xs ≡ events_of p ys
    → events_of p (xs ++ zs) ≡ events_of p (ys ++ zs)
Same-emitted p xs ys zs h =
    events_of-append p xs zs
    ∙ ap (λ (es : List MigrationEvent). es ++ events_of p zs) h
    ∙ sym (events_of-append p ys zs)

module _ (p : Text) where
  begin-Same :
      (contended : Bool) (v w : Progress)
      → Same p v w
      → Same p (begin_migrations p contended v) (begin_migrations p contended w)
  begin-Same contended v w h = (
    begin_migrations_self p contended v
        ∙ ap (map_option (begun p contended)) h.0
        ∙ sym (begin_migrations_self p contended w),
    unfold begin_migrations emit_migration_event in
        Same-emitted p v.emitted w.emitted (running_event p ∷ []) h.1,
  )

  end-Same :
      (outcome : Result Text ℕ) (v w : Progress)
      → Same p v w
      → Same p (end_migrations p outcome v) (end_migrations p outcome w)
  unfolding end_migrations emit_migration_event
  end-Same outcome v w h = (
    modify_self p (update_status (last_status outcome)) v.states
        ∙ ap (map_option (update_status (last_status outcome))) h.0
        ∙ sym (modify_self p (update_status (last_status outcome)) w.states),
    Same-emitted p v.emitted w.emitted (last_event p outcome ∷ []) h.1,
  )

  events_of-other :
      (e : MigrationEvent) (xs : List MigrationEvent)
      → text_eq e.db_path p ≡ false
      → events_of p (xs ++ e ∷ []) ≡ events_of p xs
  unfolding events_of
  events_of-other e [] h = rw h refl
  events_of-other e (x ∷ xs) h = elim (Bool-cases (text_eq x.db_path p)) [
    | inl k ↦ rw k (ap (◌∷◌ x) (events_of-other e xs h))
    | inr k ↦ rw k (events_of-other e xs h)
  ]

  begin_other-Same :
      (q : Text) (contended : Bool) (v w : Progress)
      → text_eq q p ≡ false
      → Same p v w
      → Same p (begin_migrations q contended v) w
  unfolding begin_migrations emit_migration_event
  begin_other-Same q contended v w d h = (
    begin_migrations_other p q contended v d ∙ h.0,
    events_of-other (running_event q) v.emitted d ∙ h.1,
  )

  end_other-Same :
      (q : Text) (outcome : Result Text ℕ) (v w : Progress)
      → text_eq q p ≡ false
      → Same p v w
      → Same p (end_migrations q outcome v) w
  unfolding end_migrations emit_migration_event
  end_other-Same q outcome v w d h = (
    modify_other p q (update_status (last_status outcome)) v.states d ∙ h.0,
    events_of-other (last_event q outcome) v.emitted
          (ap (λ (t : Text). text_eq t p) (last_event_path q outcome) ∙ d)
        ∙ h.1,
  )

  -- A database sees its own turns alone.
  pub run-Same :
      (turns : List Turn) (v w : Progress)
      → Same p v w
      → Same p
          (run_migrations_for_databases turns v)
          (run_migrations_for_databases (turns_of p turns) w)
  unfolding run_migrations_for_databases turns_of
  run-Same [] v w h = h
  run-Same (begins q contended ∷ turns) v w h = elim (Bool-cases (text_eq q p)) [
    | inl e ↦ rw e (
        let v' = begin_migrations q contended v in
        let w' = begin_migrations q contended w in
        run-Same turns v' w' (
          subst (λ t. Same p (begin_migrations t contended v) (begin_migrations t contended w))
            (sym (text_eq→≡ q p e)) (begin-Same contended v w h)))
    | inr e ↦
        rw e
          (run-Same turns (begin_migrations q contended v) w (begin_other-Same q contended v w e h))
  ]
  run-Same (ends q outcome ∷ turns) v w h = elim (Bool-cases (text_eq q p)) [
    | inl e ↦ rw e (
        run-Same turns (end_migrations q outcome v) (end_migrations q outcome w) (
          subst (λ t. Same p (end_migrations t outcome v) (end_migrations t outcome w))
            (sym (text_eq→≡ q p e)) (end-Same outcome v w h)))
    | inr e ↦
        rw e (run-Same turns (end_migrations q outcome v) w (end_other-Same q outcome v w e h))
  ]

module _ {M : Type 0} where
  initial_states-keeps :
      (p : Text) (ms : Map M) (states : Map MigrationState)
      → find p states ≡ some new_state
      → find p (initial_states ms states) ≡ some new_state
  unfolding initial_states
  initial_states-keeps p [] states h = h
  initial_states-keeps p ((q, m) ∷ ms) states h =
      initial_states-keeps p ms (put q new_state states) (elim (Bool-cases (text_eq q p)) [
        | inl e ↦
            subst (λ t. find p (put t new_state states) ≡ some new_state) (sym (text_eq→≡ q p e))
              (find-put p new_state states)
        | inr e ↦ find-put_other p q new_state states e ∙ h
      ])

  pub initial_states-find :
      (p : Text) (m : M) (ms : Map M) (states : Map MigrationState)
      → find p ms ≡ some m
      → find p (initial_states ms states) ≡ some new_state
  unfolding initial_states find
  initial_states-find p m [] states h = cc
  initial_states-find p m ((q, n) ∷ ms) states h = elim (Bool-cases (text_eq q p)) [
    | inl e ↦ initial_states-keeps p ms (put q new_state states) (
        subst (λ t. find p (put t new_state states) ≡ some new_state) (sym (text_eq→≡ q p e))
          (find-put p new_state states))
    | inr e ↦ initial_states-find p m ms (put q new_state states) (ground arith)
  ]
