-- ===== src/Observer/Hooks/Transactions.antt =====
-- Subscribers see whole transactions: what a committed one has changed, in order, and nothing of one
-- that is rolled back.
use tauri_plugin_sqlite.Prelude.{
  ℕ, suc, ◌≡◌, refl, sym, ap, ap₂, ◌∙◌, inl, inr, List, [], ◌∷◌, ◌++◌, map, append-nil,
  append_assoc, Option, none, some, if◌then◌else◌, Bool-cases, Option-cases, any, text_eq, Result,
  Result-cases, ok, err,
}
use tauri_plugin_sqlite.Observer.{ObserverError}
use tauri_plugin_sqlite.Observer.Broker.{
  PreUpdateEvent, TableChange, ObservationBroker, is_table_observed, on_preupdate, on_commit,
  on_rollback, flush, event_to_change,
}
use tauri_plugin_sqlite.Observer.Hooks.{
  PreUpdate, operation_of, event_of, preupdate_callback, Hook, preupdate, commit, rollback, fire,
  fire_all,
}

-- The changes that SQLite announces, and the clock of the commit, if there is one.
pub record Transaction : Type 0 where
  pub changes : List PreUpdate
  pub committed_at : Option (ℕ → ℕ)

abbrev end_of : Option (ℕ → ℕ) → Hook
end_of none = rollback
end_of (some clock) = commit clock

abbrev pub hooks_of : Transaction → List Hook
hooks_of t = map preupdate t.changes ++ (end_of t.committed_at ∷ [])

unfoldable pub hooks_of_all : List Transaction → List Hook
hooks_of_all [] = []
hooks_of_all (t ∷ ts) = hooks_of t ++ hooks_of_all ts

-- The elements with their positions, from `i` on.
unfoldable pub numbered : {A : Type 0} → ℕ → List A → List (ℕ × A)
numbered i [] = []
numbered i (a ∷ rest) = (i, a) ∷ numbered (suc i) rest

unfoldable pub concat_map : {A B : Type 0} → (A → List B) → List A → List B
concat_map f [] = []
concat_map f (a ∷ rest) = f a ++ concat_map f rest

-- What comes of a conversion: a change, or nothing.
abbrev pub converted : Result ObserverError TableChange → List TableChange
converted (ok c) = c ∷ []
converted (err e) = []

module _ (b : ObservationBroker) where
  -- The event of a change to an observed table, with nothing missing.
  unfoldable pub event_for : PreUpdate → List PreUpdateEvent
  event_for p = elim p.table [
    | none ↦ []
    | some table ↦ elim (operation_of p.op) [
      | none ↦ []
      | some operation ↦ elim p.column_count [
        | none ↦ []
        | some n ↦ if is_table_observed b table then event_of p table operation n ∷ [] else []
      ]
    ]
  ]

  unfoldable pub events : List PreUpdate → List PreUpdateEvent
  unfolding event_for
  events [] = []
  events (p ∷ ps) = event_for p ++ events ps

  -- The change of the event at a position of its transaction, where the event converts.
  abbrev pub change_at : (ℕ → ℕ) → ℕ × PreUpdateEvent → List TableChange
  change_at clock e = converted (event_to_change b (clock e.0) e.1)

  -- What the subscribers are to see of these transactions.
  unfoldable pub published : List Transaction → List TableChange
  unfolding events numbered concat_map
  published [] = []
  published (t ∷ ts) = elim t.committed_at [
    | none ↦ published ts
    | some clock ↦ concat_map (change_at clock) (numbered 0 (events t.changes)) ++ published ts
  ]

  abbrev pub with_buffer : List PreUpdateEvent → ObservationBroker
  with_buffer xs = record b { buffer = xs }

  pub preupdate_callback-event_for :
      (xs : List PreUpdateEvent) (p : PreUpdate)
      → preupdate_callback (with_buffer xs) p ≡ with_buffer (xs ++ event_for p)
  unfolding preupdate_callback event_for is_table_observed on_preupdate
  preupdate_callback-event_for xs p =
      let same = ap with_buffer (sym (append-nil xs)) in
      elim (Option-cases p.table) [
        | inl e ↦ rw (e, preupdate_callback, event_for) same
        | inr (table, e) ↦ elim (Bool-cases (any (text_eq table) b.observed_tables)) [
          | inr o ↦ elim (Option-cases (operation_of p.op)) [
            | inl f ↦ rw (e, o, f, preupdate_callback, event_for) same
            | inr (operation, f) ↦ elim (Option-cases p.column_count) [
              | inl g ↦ rw (e, o, f, g, preupdate_callback, event_for) same
              | inr (n, g) ↦ rw (e, o, f, g, preupdate_callback, event_for) (rw o same)
            ]
          ]
          | inl o ↦ elim (Option-cases (operation_of p.op)) [
            | inl f ↦ rw (e, o, f, preupdate_callback, event_for) same
            | inr (operation, f) ↦ elim (Option-cases p.column_count) [
              | inl g ↦ rw (e, o, f, g, preupdate_callback, event_for) same
              | inr (n, g) ↦ rw (e, o, f, g, preupdate_callback, event_for) (rw o refl)
            ]
          ]
        ]
      ]

  fire_all-preupdate :
      (xs : List PreUpdateEvent) (ps : List PreUpdate) (rest : List Hook)
      → fire_all (map preupdate ps ++ rest) (with_buffer xs)
        ≡ fire_all rest (with_buffer (xs ++ events ps))
  unfolding fire_all fire events
  fire_all-preupdate xs [] rest = ap (λ l. fire_all rest (with_buffer l)) (sym (append-nil xs))
  fire_all-preupdate xs (p ∷ ps) rest =
      ap (fire_all (map preupdate ps ++ rest)) (preupdate_callback-event_for xs p)
      ∙ (fire_all-preupdate (xs ++ event_for p) ps rest
          ∙ ap (λ l. fire_all rest (with_buffer l)) (append_assoc xs (event_for p) (events ps)))

  flush-with_buffer :
      (xs : List PreUpdateEvent) (clock : ℕ → ℕ) (i : ℕ) (es : List PreUpdateEvent)
      → flush (with_buffer xs) clock i es ≡ flush b clock i es
  unfolding flush event_to_change
  flush-with_buffer xs clock i [] = refl
  flush-with_buffer xs clock i (e ∷ es) =
      ap
        (λ rest. elim (event_to_change b (clock i) e) [
          | ok table_change ↦ table_change ∷ rest
          | err x ↦ rest
        ])
        (flush-with_buffer xs clock (suc i) es)

  -- The loop of `on_commit` skips the events that do not convert, and no others.
  flush-change_at :
      (clock : ℕ → ℕ) (i : ℕ) (es : List PreUpdateEvent)
      → flush b clock i es ≡ concat_map (change_at clock) (numbered i es)
  unfolding flush numbered concat_map
  flush-change_at clock i [] = refl
  flush-change_at clock i (e ∷ es) = elim (Result-cases (event_to_change b (clock i) e)) [
    | inl (c, f) ↦ rw (f, flush) (ap (λ rest. c ∷ rest) (flush-change_at clock (suc i) es))
    | inr (x, f) ↦ rw (f, flush) (flush-change_at clock (suc i) es)
  ]

-- Any sequence of transactions on a broker with an empty buffer, each with its announced changes
-- and then its commit or its rollback: what is sent to the subscribers is, transaction by
-- transaction and change by change in order, what the changes of the committed ones to observed
-- tables convert to, each at its own place in its transaction; a change that does not convert is
-- passed over and those behind it are sent. Of the others nothing is sent, and the broker is left as
-- it was.
pub fire_all-published :
    (b : ObservationBroker) (ts : List Transaction)
    → fire_all (hooks_of_all ts) (record b { buffer = [] })
      ≡ (record b { buffer = [] }, published b ts)
unfolding fire_all fire hooks_of_all published on_commit on_rollback flush
fire_all-published b [] = refl
fire_all-published b (t ∷ ts) = elim (Option-cases t.committed_at) [
  | inl e ↦ rw e (
      ap (λ l. fire_all l (with_buffer b []))
        (append_assoc (map preupdate t.changes) (rollback ∷ []) (hooks_of_all ts))
      ∙ (fire_all-preupdate b [] t.changes (rollback ∷ hooks_of_all ts) ∙ fire_all-published b ts))
  | inr (clock, e) ↦ rw e (
      ap (λ l. fire_all l (with_buffer b []))
        (append_assoc (map preupdate t.changes) (commit clock ∷ []) (hooks_of_all ts))
      ∙ (fire_all-preupdate b [] t.changes (commit clock ∷ hooks_of_all ts)
          ∙ ap₂ (λ sent (rest : ObservationBroker × List TableChange). (rest.0, sent ++ rest.1))
              (flush-with_buffer b (events b t.changes) clock 0 (events b t.changes)
                ∙ flush-change_at b clock 0 (events b t.changes))
              (fire_all-published b ts)))
]
