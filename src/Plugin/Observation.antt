-- ===== src/Plugin/Observation.antt =====
-- src/commands.rs: the commands that turn the observation of a database on and off, and subscribe to
-- it. `D` is a database and `H` the abort handle of a subscription's task.
pub mod Served
pub mod Steps
mod Commands
pub mod Histories
mod Tests
use tauri_plugin_sqlite.Prelude.{
  ℕ, zero, suc, Bool, true, false, not, ◌&&◌, ◌||◌, ◌==◌, List, [], ◌∷◌, ◌++◌, Option, none, some,
  Text, codes, decimal, Map, find, put, ltb, leb, length, is_empty, if◌then◌else◌, Result, ok, err,
  ◌>>=◌,
}
use tauri_plugin_sqlite.Observer.Broker.{ObservationBroker}
use tauri_plugin_sqlite.Observer.Stream.{
  ObserverConfig, default_config, with_tables, with_channel_capacity, with_capture_values,
  TableChangeStream, subscribe_stream,
}
use tauri_plugin_sqlite.Toolkit.Wrapper.{DatabaseWrapper, enable_observation, disable_observation}
use tauri_plugin_sqlite.Plugin.{
  PluginError, invalid_config, database_not_loaded, observation_not_enabled, too_many_subscriptions,
}
use tauri_plugin_sqlite.Plugin.Subscriptions.{
  ActiveSubscription, insert_subscription, remove_subscription, remove_for_db, count_for_db,
}
use tauri_plugin_sqlite.Plugin.Databases.{DbInstances}

pub record ObserverConfigParams : Type 0 where
  pub channel_capacity : Option ℕ
  pub capture_values : Option Bool

-- The state that the commands share.
pub record Shared (D H : Type 0) : Type 0 where
  pub instances : DbInstances (DatabaseWrapper D)
  pub subs : Map (ActiveSubscription H)

-- What a command answers, the state behind it, and the handles that it aborts.
abbrev pub Answer : Type 0 → Type 0 → Type 0 → Type 0
Answer A D H = Result PluginError A × Shared D H × List H

abbrev pub max_observed_tables : ℕ
max_observed_tables = 100

abbrev pub max_channel_capacity : ℕ
max_channel_capacity = 10000

abbrev pub max_subscriptions_per_database : ℕ
max_subscriptions_per_database = 100

-- The message is "tables count must be between 1 and 100, got …".
abbrev pub wrong_count : ℕ → PluginError
wrong_count n = invalid_config (
    codes "tables count must be between 1 and "
    ++ (decimal max_observed_tables ++ (codes ", got " ++ decimal n)))

abbrev pub wrong_capacity : ℕ → PluginError
wrong_capacity n = invalid_config (
    codes "channel_capacity must be between 1 and "
    ++ (decimal max_channel_capacity ++ (codes ", got " ++ decimal n)))

abbrev pub capture_param : Option Bool → ObserverConfig → ObserverConfig
capture_param none c = c
capture_param (some capture) c = with_capture_values capture c

-- The part of `observe` that reads its parameters.
unfoldable pub observer_config :
    List Text → Option ObserverConfigParams → Result PluginError ObserverConfig
observer_config tables none = ok (with_tables tables default_config)
observer_config tables (some params) = elim params.channel_capacity [
  | none ↦ ok (capture_param params.capture_values (with_tables tables default_config))
  | some capacity ↦
      if capacity == 0 || ltb max_channel_capacity capacity
      then err (wrong_capacity capacity)
      else ok (
          capture_param params.capture_values
            (with_channel_capacity capacity (with_tables tables default_config)))
]

module _ {D H : Type 0} where
  -- `instances.get_mut(&db)` and the new wrapper.
  abbrev pub with_wrapper : Text → DatabaseWrapper D → Shared D H → Shared D H
  with_wrapper db w s = record s {
    instances = record s.instances { inner = put db w s.instances.inner };
  }

  abbrev pub with_subs : Map (ActiveSubscription H) → Shared D H → Shared D H
  with_subs subs s = record s { subs = subs }

  -- `observe` behind the removal of the subscriptions; `none` is a panic.
  unfoldable pub observe_loaded :
      Text
      → List Text
      → Option ObserverConfigParams
      → DatabaseWrapper D
      → Shared D H
      → Option (Result PluginError (Unit {0}) × Shared D H)
  unfolding observer_config
  observe_loaded db tables config w s = elim (observer_config tables config) [
    | err e ↦ some (err e, s)
    | ok c ↦ elim (enable_observation c w) [
      | none ↦ none
      | some w' ↦ some (ok tt, with_wrapper db w' s)
    ]
  ]

  unfoldable pub observe :
      Text → List Text → Option ObserverConfigParams → Shared D H → Option (Answer (Unit {0}) D H)
  unfolding observe_loaded
  observe db tables config s =
      let removed = remove_for_db s.subs db in
      let rest = with_subs removed.0 s in
      if is_empty tables || ltb max_observed_tables (length tables)
      then some (err (wrong_count (length tables)), s, [])
      else elim (find db s.instances.inner) [
        | none ↦ some (err (database_not_loaded db), rest, removed.1)
        | some w ↦ elim (observe_loaded db tables config w rest) [
          | none ↦ none
          | some done ↦ some (done.0, done.1, removed.1)
        ]
      ]

  -- `subscribe`: `counted` is what `count_for_db` reads at the start, `id` the new id and `handle` that
  -- of the task that is spawned; with the filter of the stream.
  unfoldable pub subscribe :
      ℕ
      → Text
      → List Text
      → Text
      → H
      → Shared D H
      → Result PluginError (Text × TableChangeStream) × Shared D H
  unfolding subscribe_stream
  subscribe counted db tables id handle s =
      if leb max_subscriptions_per_database counted
      then (err (too_many_subscriptions max_subscriptions_per_database), s)
      else elim (find db s.instances.inner) [
        | none ↦ (err (database_not_loaded db), s)
        | some w ↦ elim w.observer [
          | none ↦ (err (observation_not_enabled db), s)
          | some b ↦
              let streaming = subscribe_stream b tables in
              (
                ok (id, streaming.1),
                with_subs (insert_subscription s.subs id db handle)
                    (with_wrapper db (record w { observer = some streaming.0 }) s),
              )
        ]
      ]

  unfoldable pub unsubscribe : Text → Shared D H → Answer Bool D H
  unsubscribe id s =
      let removed = remove_subscription s.subs id in
      (ok removed.2, with_subs removed.0 s, removed.1)

  unfoldable pub unobserve : Text → Shared D H → Answer (Unit {0}) D H
  unobserve db s =
      let removed = remove_for_db s.subs db in
      let rest = with_subs removed.0 s in
      elim (find db s.instances.inner) [
        | none ↦ (err (database_not_loaded db), rest, removed.1)
        | some w ↦ (ok tt, with_wrapper db (disable_observation w) rest, removed.1)
      ]
