-- ===== src/Plugin/Migrations/Settled.antt =====
-- The task of each database settles its status, whatever the tasks of the others do in between.
use tauri_plugin_sqlite.Prelude.{
  ◌≡◌, refl, ap, ◌∙◌, Bool, true, false, List, [], ◌∷◌, Option, some, Text, text_eq_refl, Map, find,
  if◌then◌else◌, Result, ok, err, ℕ,
}
use tauri_plugin_sqlite.Observer.Broker.{map_option}
use tauri_plugin_sqlite.Plugin.{PluginError, migration}
use tauri_plugin_sqlite.Plugin.Databases.{MigrationStatus, migrations_round}
use tauri_plugin_sqlite.Plugin.Migrations.{
  MigrationState, new_state, update_status, cache_event, initial_states, Progress,
  emit_migration_event, running_event, last_event, last_status, begin_migrations, end_migrations,
  Turn, begins, ends, run_migrations_for_databases, get_migration_events,
}
use tauri_plugin_sqlite.Plugin.Migrations.Turns.{
  turns_of, events_of, begun, modify_self, begin_migrations_self, run-Same, initial_states-find,
  last_event_path,
}

-- What `await_migrations` then gives.
abbrev pub awaited : Result Text ℕ → Result PluginError (Unit {0})
awaited (ok count) = ok tt
awaited (err e) = err (migration e)

abbrev pub status_at : Text → Map MigrationState → Option MigrationStatus
status_at p states = map_option (λ (s : MigrationState). s.status) (find p states)

-- How the migrations of one database have gone.
pub record HasSettled (p : Text) (contended : Bool) (outcome : Result Text ℕ) (w : Progress)
    : Type 0 where
  pub awaits : migrations_round (status_at p w.states) ≡ some (awaited outcome)
  pub emits : events_of p w.emitted ≡ running_event p ∷ last_event p outcome ∷ []
  pub caches : get_migration_events p w.states ≡ (if contended then [] else running_event p ∷ [])

-- The progress at setup.
abbrev pub at_setup : {M : Type 0} → Map M → Progress
at_setup ms = record { states = initial_states ms []; emitted = [] }

module _ {M : Type 0} (p : Text) (contended : Bool) (outcome : Result Text ℕ) (ms : Map M) (m : M)
    (registered : find p ms ≡ some m) where
  abbrev after_own : Progress
  after_own = end_migrations p outcome (begin_migrations p contended (at_setup ms))

  own_state :
      find p after_own.states
      ≡ some (update_status (last_status outcome) (begun p contended new_state))
  unfolding end_migrations emit_migration_event
  own_state =
      modify_self p (update_status (last_status outcome))
        (begin_migrations p contended (at_setup ms)).states
      ∙ ap (map_option (update_status (last_status outcome))) (
          begin_migrations_self p contended (at_setup ms)
          ∙ ap (map_option (begun p contended)) (initial_states-find p m ms [] registered))

  own_events : events_of p after_own.emitted ≡ running_event p ∷ last_event p outcome ∷ []
  unfolding end_migrations begin_migrations emit_migration_event events_of
  own_events = rw (last_event_path p outcome, text_eq_refl p) refl

  last_awaited :
      (o : Result Text ℕ) (s : MigrationState)
      → migrations_round (some (update_status (last_status o) s).status) ≡ some (awaited o)
  unfolding migrations_round update_status
  last_awaited (ok count) s = refl
  last_awaited (err e) s = refl

  begun_events :
      (b : Bool) → (begun p b new_state).events ≡ (if b then [] else running_event p ∷ [])
  unfolding update_status cache_event
  begun_events true = refl
  begun_events false = refl

  settled :
      (w : Progress)
      → find p w.states ≡ find p after_own.states
      → events_of p w.emitted ≡ events_of p after_own.emitted
      → HasSettled p contended outcome w
  unfolding get_migration_events
  settled w h k = record {
    awaits = rw (h ∙ own_state) (last_awaited outcome (begun p contended new_state));
    emits = k ∙ own_events;
    caches =
        rw (h ∙ own_state, get_migration_events) (unfold update_status in begun_events contended);
  }

  -- With any turns of the tasks, if those of a registered database `p` are that its task begins
  -- and then ends with `outcome`: `await_migrations` then returns, with an error exactly if the
  -- task had one, and that error; the events that were emitted for `p` are "running" and
  -- then "completed" or "failed"; and `get_migration_events` answers with "running" alone, or, if
  -- the lock was taken when that was emitted, with no event at all: the last event is never cached.
  pub run_migrations-settles :
      (turns : List Turn)
      → turns_of p turns ≡ begins p contended ∷ ends p outcome ∷ []
      → HasSettled p contended outcome (run_migrations_for_databases turns (at_setup ms))
  unfolding run_migrations_for_databases
  run_migrations-settles turns own =
      let same = run-Same p turns (at_setup ms) (at_setup ms) (refl, refl) in
      settled (run_migrations_for_databases turns (at_setup ms))
        (same.0 ∙ ap (λ ts. find p (run_migrations_for_databases ts (at_setup ms)).states) own)
        (same.1
          ∙ ap (λ ts. events_of p (run_migrations_for_databases ts (at_setup ms)).emitted) own)
