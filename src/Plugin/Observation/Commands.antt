-- ===== src/Plugin/Observation/Commands.antt =====
-- Loading, closing and observing a database keep its subscriptions in step.
use tauri_plugin_sqlite.Prelude.{
  ℕ, zero, suc, ◌≡◌, refl, sym, ap, subst, inl, inr, Bool, true, false, ◌||◌, ◌==◌, List, [],
  Option, none, some, arith, Text, find, put, erase, find-put_other, find-erase_other, Bool-cases,
  Option-cases, if◌then◌else◌, ltb, is_empty, length, Result, Result-cases, ok-injective, ok, err,
}
use tauri_plugin_sqlite.Observer.Broker.{ObservationBroker, new_broker, observe_tables}
use tauri_plugin_sqlite.Observer.Stream.{
  ObserverConfig, new_observable, with_tables, default_config, with_channel_capacity,
}
use tauri_plugin_sqlite.Toolkit.Wrapper.{DatabaseWrapper, is_observing, enable_observation}
use tauri_plugin_sqlite.Plugin.{PluginError, database_not_loaded}
use tauri_plugin_sqlite.Plugin.Subscriptions.{remove_for_db}
use tauri_plugin_sqlite.Plugin.Databases.{DbInstances, load, close_database}
use tauri_plugin_sqlite.Plugin.Databases.Limit.{load-cases}
use tauri_plugin_sqlite.Plugin.Observation.{
  Shared, ObserverConfigParams, observer_config, observe_loaded, observe, with_wrapper, with_subs,
  capture_param, wrong_count, Answer,
}
use tauri_plugin_sqlite.Plugin.Observation.Steps.{InStep, removed-InStep, put_new-served}

-- A channel with capacity.
new_broker-some :
    (capacity : ℕ) (capture : Bool)
    → (capacity == 0) ≡ false
    → (b : ObservationBroker) × (new_broker capacity capture ≡ some b)
unfolding new_broker
new_broker-some zero capture h = absurd (cc)
new_broker-some (suc n) capture h =
    (record { buffer = []; observed_tables = []; table_info = []; capture_values = capture }, refl)

pub enable_observation-some :
    {D : Type 0} (c : ObserverConfig) (w : DatabaseWrapper D)
    → (c.channel_capacity == 0) ≡ false
    → (w' : DatabaseWrapper D) × (enable_observation c w ≡ some w') × (is_observing w' ≡ true)
unfolding enable_observation new_observable
enable_observation-some c w h =
    let (b, e) = new_broker-some c.channel_capacity c.capture_values h in
    let b' : ObservationBroker = if is_empty c.tables then b else observe_tables b c.tables in
    (record w { observer = some b' }, rw (enable_observation, new_observable, e) refl, refl)

-- `observe` lets no channel without capacity through.
capture_param_capacity :
    (o : Option Bool) (c : ObserverConfig)
    → (capture_param o c).channel_capacity ≡ c.channel_capacity
capture_param_capacity none c = refl
capture_param_capacity (some b) c = refl

observer_config_capacity :
    (tables : List Text) (config : Option ObserverConfigParams) (c : ObserverConfig)
    → observer_config tables config ≡ ok c
    → (c.channel_capacity == 0) ≡ false
unfolding observer_config
observer_config_capacity tables none c h =
    rw (← ok-injective (with_tables tables default_config) c h) refl
observer_config_capacity tables (some params) c h = elim (Option-cases params.channel_capacity) [
  | inl e ↦
      let d = capture_param params.capture_values (with_tables tables default_config) in
      let same = ok-injective d c (rw (observer_config, e) at h) in
      rw (← same, capture_param_capacity params.capture_values (with_tables tables default_config))
        refl
  | inr (capacity, e) ↦ elim (Bool-cases (capacity == 0 || ltb 10000 capacity)) [
    | inl bad ↦ absurd (let r = (rw (observer_config, e, bad) at h) in cc)
    | inr good ↦
        let base = with_channel_capacity capacity (with_tables tables default_config) in
        let same =
          ok-injective (capture_param params.capture_values base) c
            (rw (observer_config, e, good) at h) in
        rw (← same, capture_param_capacity params.capture_values base) (ground arith)
  ]
]

module _ {D H : Type 0} where
  pub load-InStep :
      (connect : Result PluginError (DatabaseWrapper D)) (db : Text)
      (earlier : DbInstances (DatabaseWrapper D)) (s : Shared D H)
      → InStep s
      → InStep (record s { instances = (load connect db earlier s.instances).1 })
  load-InStep connect db earlier s h = elim (load-cases connect db earlier s.instances) [
    | inl (r, e) ↦
        subst (λ i. InStep (record s { instances = i }))
          (sym (ap (λ (o : Result PluginError Text × DbInstances (DatabaseWrapper D)). o.1) e)) h
    | inr (w, new, room, e) ↦
        subst (λ i. InStep (record s { instances = i }))
          (sym (ap (λ (o : Result PluginError Text × DbInstances (DatabaseWrapper D)). o.1) e))
          (record {
            served = put_new-served s.instances db w s.subs new h.served;
            limited = h.limited;
            different = h.different;
          })
  ]

  pub close-InStep :
      (shut : DatabaseWrapper D → Result PluginError (Unit {0})) (db : Text) (s : Shared D H)
      → InStep s
      → InStep (record {
        instances = (close_database shut db s.instances s.subs).1;
        subs = (close_database shut db s.instances s.subs).2;
      })
  unfolding close_database
  close-InStep shut db s h = elim (Option-cases (find db s.instances.inner)) [
    | inl e ↦ rw (e, close_database) (removed-InStep s db s.instances h (λ other n. refl))
    | inr (w, e) ↦
        rw (e, close_database)
          (removed-InStep s db (record s.instances { inner = erase db s.instances.inner }) h
            (λ other n. find-erase_other other db s.instances.inner n))
  ]

  abbrev pub Observes : Text → List Text → Option ObserverConfigParams → Shared D H → Type 0
  Observes db tables config s =
      (answer : Answer (Unit {0}) D H) × (observe db tables config s ≡ some answer)
      × InStep answer.1

  pub observe-InStep :
      (db : Text) (tables : List Text) (config : Option ObserverConfigParams) (s : Shared D H)
      → InStep s
      → Observes db tables config s
  unfolding observe observe_loaded
  observe-InStep db tables config s h =
      let gone = remove_for_db s.subs db in
      let rest = with_subs gone.0 s in
      elim (Bool-cases (is_empty tables || ltb 100 (length tables))) [
        | inl e ↦ ((err (wrong_count (length tables)), s, []), rw (observe, e) refl, h)
        | inr e ↦ elim (Option-cases (find db s.instances.inner)) [
          | inl f ↦ (
            (err (database_not_loaded db), rest, gone.1),
            rw (observe, e) (rw f refl),
            removed-InStep s db s.instances h (λ other n. refl),
          )
          | inr (w, f) ↦ elim (Result-cases (observer_config tables config)) [
            | inr (x, g) ↦ (
              (err x, rest, gone.1),
              rw (observe, e) (rw f (rw (observe_loaded, g) refl)),
              removed-InStep s db s.instances h (λ other n. refl),
            )
            | inl (c, g) ↦
                let (w', on, watching) =
                  enable_observation-some c w (observer_config_capacity tables config c g) in
                (
                  (ok tt, with_wrapper db w' rest, gone.1),
                  rw (observe, e) (rw f (rw (observe_loaded, g) (rw on refl))),
                  removed-InStep s db (record s.instances { inner = put db w' s.instances.inner }) h
                      (λ other n. find-put_other other db w' s.instances.inner n),
                )
          ]
        ]
      ]
