-- ===== src/Plugin/Observation/Steps.antt =====
-- Commands that run one after the other, and when subscriptions and observers are in step.
use tauri_plugin_sqlite.Prelude.{
  ◌≤◌, ◌≡◌, sym, ap, ◌∙◌, subst, inl, inr, true, false, List, [], ◌∷◌, Option, none, some, arith,
  Text, text_eq, text_eq→≡, text_eq_comm, Map, find, put, Distinct, find-put, find-put_other,
  All-imp, Bool-cases, Result,
}
use tauri_plugin_sqlite.Toolkit.Wrapper.{DatabaseWrapper, is_observing}
use tauri_plugin_sqlite.Plugin.{PluginError}
use tauri_plugin_sqlite.Plugin.Subscriptions.{ActiveSubscription, remove_for_db, count_for_db}
use tauri_plugin_sqlite.Plugin.Subscriptions.Filtered.{others, remove_for_db-filtered}
use tauri_plugin_sqlite.Plugin.Databases.{DbInstances, load, close_database, close_all}
use tauri_plugin_sqlite.Plugin.Observation.{
  Shared, ObserverConfigParams, observe, subscribe, unsubscribe, unobserve,
}
use tauri_plugin_sqlite.Plugin.Observation.Served.{Each, others-Each, others-Distinct, others-count}

-- What a frontend asks for. `subscribe` counts the subscriptions when it runs.
pub data ObservationCommand (D H : Type 0) : Type 0 where
  do_load :
      Result PluginError (DatabaseWrapper D)
      → Text
      → DbInstances (DatabaseWrapper D)
      → ObservationCommand D H
  do_close : (DatabaseWrapper D → Result PluginError (Unit {0})) → Text → ObservationCommand D H
  do_close_all : (DatabaseWrapper D → Result PluginError (Unit {0})) → ObservationCommand D H
  do_observe : Text → List Text → Option ObserverConfigParams → ObservationCommand D H
  do_subscribe : Text → List Text → Text → H → ObservationCommand D H
  do_unsubscribe : Text → ObservationCommand D H
  do_unobserve : Text → ObservationCommand D H

module _ {D H : Type 0} where
  -- A command, and commands one after the other; `none` is a panic.
  unfoldable pub run_command : ObservationCommand D H → Shared D H → Option (Shared D H)
  run_command (do_load connect db earlier) s =
      some (record s { instances = (load connect db earlier s.instances).1 })
  run_command (do_close shut db) s =
      let out = close_database shut db s.instances s.subs in
      some (record { instances = out.1; subs = out.2 })
  run_command (do_close_all shut) s =
      let out = close_all shut s.instances s.subs in
      some (record { instances = out.1; subs = out.2 })
  run_command (do_observe db tables config) s = elim (observe db tables config s) [
    | none ↦ none
    | some answer ↦ some answer.1
  ]
  run_command (do_subscribe db tables id handle) s =
      some (subscribe (count_for_db s.subs db) db tables id handle s).1
  run_command (do_unsubscribe id) s = some (unsubscribe id s).1
  run_command (do_unobserve db) s = some (unobserve db s).1

  unfoldable pub run_all : List (ObservationCommand D H) → Shared D H → Option (Shared D H)
  unfolding run_command
  run_all [] s = some s
  run_all (c ∷ cs) s = elim (run_command c s) [ none ↦ none | some next ↦ run_all cs next ]

  -- The database of a subscription is loaded, and observed.
  abbrev pub IsServed : DbInstances (DatabaseWrapper D) → ActiveSubscription H → Type 0
  IsServed instances sub =
      (w : DatabaseWrapper D) × (find sub.db_path instances.inner ≡ some w)
      × (is_observing w ≡ true)

  pub record InStep (s : Shared D H) : Type 0 where
    pub served : Each (IsServed s.instances) s.subs
    pub limited : (db : Text) → count_for_db s.subs db ≤ 100
    pub different : Distinct s.subs

  -- Subscriptions of other databases do not see a wrapper that is replaced or removed.
  served_by_others :
      (i j : DbInstances (DatabaseWrapper D)) (db : Text) (subs : Map (ActiveSubscription H))
      → ((other : Text) → text_eq db other ≡ false → find other j.inner ≡ find other i.inner)
      → Each (IsServed i) subs
      → Each (IsServed j) (others subs db)
  served_by_others i j db subs same h =
      All-imp (others subs db)
        (λ e k. (k.0.0, same (e.1).db_path (text_eq_comm db (e.1).db_path ∙ k.1) ∙ k.0.1, k.0.2))
        (others-Each (IsServed i) db subs h)

  -- `remove_for_db`, with the wrapper of the database replaced, removed, or left.
  pub removed-InStep :
      (s : Shared D H) (db : Text) (j : DbInstances (DatabaseWrapper D))
      → InStep s
      → ((other : Text)
          → text_eq db other ≡ false
          → find other j.inner ≡ find other s.instances.inner)
      → InStep (record { instances = j; subs = (remove_for_db s.subs db).0 })
  removed-InStep s db j h same =
      subst (λ subs. InStep (record { instances = j; subs = subs }))
        (sym (
          ap (λ (r : Map (ActiveSubscription H) × List H). r.0)
            (remove_for_db-filtered s.subs db h.different)))
        (record {
          served = served_by_others s.instances j db s.subs same h.served;
          limited = λ q. let a = others-count db q s.subs in let b = h.limited q in omega arith;
          different = others-Distinct db s.subs h.different;
        })

  -- A wrapper that is put where none was, or that observes.
  pub put_wrapper-served :
      (i : DbInstances (DatabaseWrapper D)) (db : Text) (w : DatabaseWrapper D)
      (subs : Map (ActiveSubscription H))
      → is_observing w ≡ true
      → Each (IsServed i) subs
      → Each (IsServed (record i { inner = put db w i.inner })) subs
  put_wrapper-served i db w subs on h =
      All-imp subs
        (λ e k. elim (Bool-cases (text_eq db (e.1).db_path)) [
          | inl same ↦ (
            w,
            subst (λ t. find t (put db w i.inner) ≡ some w) (text_eq→≡ db (e.1).db_path same)
                (find-put db w i.inner),
            on,
          )
          | inr other ↦ (k.0, find-put_other (e.1).db_path db w i.inner other ∙ k.1, k.2)
        ])
        h

  pub put_new-served :
      (i : DbInstances (DatabaseWrapper D)) (db : Text) (w : DatabaseWrapper D)
      (subs : Map (ActiveSubscription H))
      → find db i.inner ≡ none
      → Each (IsServed i) subs
      → Each (IsServed (record i { inner = put db w i.inner })) subs
  put_new-served i db w subs new h =
      All-imp subs
        (λ e k. elim (Bool-cases (text_eq db (e.1).db_path)) [
          | inl same ↦
              absurd (let r = ap (λ t. find t i.inner) (text_eq→≡ db (e.1).db_path same) in cc)
          | inr other ↦ (k.0, find-put_other (e.1).db_path db w i.inner other ∙ k.1, k.2)
        ])
        h
