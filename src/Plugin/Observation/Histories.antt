-- ===== src/Plugin/Observation/Histories.antt =====
-- Commands that run one after the other keep the subscriptions and the observers in step.
use tauri_plugin_sqlite.Prelude.{
  ℕ, ◌+◌, ◌≤◌, ◌≡◌, refl, sym, ap, ◌∙◌, inl, inr, Bool, true, false, List, [], ◌∷◌, Option, some,
  arith, Text, text_eq, text_eq→≡, find, put, Distinct, put-Distinct, erase-Distinct, find-put,
  find-put_other, Bool-cases, Option-cases, if◌then◌else◌, leb,
}
use tauri_plugin_sqlite.Observer.Stream.{subscribe_stream}
use tauri_plugin_sqlite.Toolkit.Wrapper.{DatabaseWrapper, is_observing, disable_observation}
use tauri_plugin_sqlite.Plugin.Subscriptions.{
  ActiveSubscription, insert_subscription, remove_subscription, count_for_db,
}
use tauri_plugin_sqlite.Plugin.Databases.{load, close_database, close_all}
use tauri_plugin_sqlite.Plugin.Observation.{
  Shared, subscribe, unsubscribe, unobserve, with_wrapper, with_subs,
}
use tauri_plugin_sqlite.Plugin.Observation.Served.{erase-Each, put-Each, erase-count, put-count}
use tauri_plugin_sqlite.Plugin.Observation.Steps.{
  ObservationCommand, do_load, do_close, do_close_all, do_observe, do_subscribe, do_unsubscribe,
  do_unobserve, run_command, run_all, IsServed, InStep, removed-InStep, put_wrapper-served,
}
use tauri_plugin_sqlite.Plugin.Observation.Commands.{load-InStep, close-InStep, observe-InStep}

le_hundred : (n m : ℕ) (b : Bool) → leb 100 n ≡ false → m ≤ (if b then 1 else 0) + n → m ≤ 100
le_hundred n m true h le = ground arith
le_hundred n m false h le = ground arith

module _ {D H : Type 0} where
  -- A command does not panic, and leaves things in step.
  abbrev Continues : Option (Shared D H) → Type 0
  Continues o = (next : Shared D H) × (o ≡ some next) × InStep next

  counted_put :
      (s : Shared D H) (db id q : Text) (handle : H)
      → leb 100 (count_for_db s.subs db) ≡ false
      → count_for_db s.subs q ≤ 100
      → count_for_db (insert_subscription s.subs id db handle) q ≤ 100
  unfolding insert_subscription
  counted_put s db id q handle room le =
      let new : ActiveSubscription H = record { abort_handle = handle; db_path = db } in
      let more = put-count id q new s.subs in
      elim (Bool-cases (text_eq db q)) [
        | inl e ↦
            le_hundred (count_for_db s.subs q) (count_for_db (put id new s.subs) q) (text_eq db q)
              (ap (λ t. leb 100 (count_for_db s.subs t)) (sym (text_eq→≡ db q e)) ∙ room) more
        | inr e ↦
            let same : count_for_db (put id new s.subs) q
                ≤ (if false then 1 else 0) + count_for_db s.subs q =
              rw e at more in
            omega arith
      ]

  -- The subscription is there, and the stream may have added tables to the broker.
  added-InStep :
      (db id : Text) (handle : H) (w : DatabaseWrapper D) (s : Shared D H)
      → is_observing w ≡ true
      → leb 100 (count_for_db s.subs db) ≡ false
      → InStep s
      → InStep (with_subs (insert_subscription s.subs id db handle) (with_wrapper db w s))
  unfolding insert_subscription
  added-InStep db id handle w s on room h = record {
    served =
        put-Each (IsServed (record s.instances { inner = put db w s.instances.inner })) id
          (record { abort_handle = handle; db_path = db }) s.subs
          (w, find-put db w s.instances.inner, on)
          (put_wrapper-served s.instances db w s.subs on h.served);
    limited = λ q. counted_put s db id q handle room (h.limited q);
    different = put-Distinct id (record { abort_handle = handle; db_path = db }) s.subs h.different;
  }

  subscribe-InStep :
      (db : Text) (tables : List Text) (id : Text) (handle : H) (s : Shared D H)
      → InStep s
      → InStep (subscribe (count_for_db s.subs db) db tables id handle s).1
  unfolding subscribe
  subscribe-InStep db tables id handle s h = elim (Bool-cases (leb 100 (count_for_db s.subs db))) [
    | inl e ↦ rw (e, subscribe) h
    | inr e ↦ elim (Option-cases (find db s.instances.inner)) [
      | inl f ↦ rw (e, subscribe) (rw f h)
      | inr (w, f) ↦ elim (Option-cases w.observer) [
        | inl g ↦ rw (e, subscribe) (rw f (rw g h))
        | inr (b, g) ↦
            rw (e, subscribe)
              (rw f (
                rw g (
                  added-InStep db id handle
                    (record w { observer = some (subscribe_stream b tables).0 }) s refl e h)))
      ]
    ]
  ]

  unsubscribe-InStep : (id : Text) (s : Shared D H) → InStep s → InStep (unsubscribe id s).1
  unfolding unsubscribe remove_subscription
  unsubscribe-InStep id s h = elim (Option-cases (find id s.subs)) [
    | inl e ↦ rw (e, unsubscribe, remove_subscription) h
    | inr (sub, e) ↦
        rw (e, unsubscribe, remove_subscription)
          (record {
            served = erase-Each (IsServed s.instances) id s.subs h.served;
            limited = λ q. let a = erase-count id q s.subs in let b = h.limited q in omega arith;
            different = erase-Distinct id s.subs h.different;
          })
  ]

  unobserve-InStep : (db : Text) (s : Shared D H) → InStep s → InStep (unobserve db s).1
  unfolding unobserve
  unobserve-InStep db s h = elim (Option-cases (find db s.instances.inner)) [
    | inl e ↦ rw (e, unobserve) (removed-InStep s db s.instances h (λ other n. refl))
    | inr (w, e) ↦
        rw (e, unobserve)
          (removed-InStep s db
            (record s.instances { inner = put db (disable_observation w) s.instances.inner }) h
            (λ other n. find-put_other other db (disable_observation w) s.instances.inner n))
  ]

  run_command-Continues :
      (c : ObservationCommand D H) (s : Shared D H) → InStep s → Continues (run_command c s)
  unfolding run_command close_all count_for_db Distinct
  run_command-Continues (do_load connect db earlier) s h = (
    record s { instances = (load connect db earlier s.instances).1 },
    refl,
    load-InStep connect db earlier s h,
  )
  run_command-Continues (do_close shut db) s h = (
    record {
      instances = (close_database shut db s.instances s.subs).1;
      subs = (close_database shut db s.instances s.subs).2;
    },
    refl,
    close-InStep shut db s h,
  )
  run_command-Continues (do_close_all shut) s h = (
    record { instances = record s.instances { inner = [] }; subs = [] },
    refl,
    record { served = tt; limited = λ q. omega arith; different = tt },
  )
  run_command-Continues (do_observe db tables config) s h =
      let (answer, e, next) = observe-InStep db tables config s h in
      (answer.1, rw (run_command, e) refl, next)
  run_command-Continues (do_subscribe db tables id handle) s h = (
    (subscribe (count_for_db s.subs db) db tables id handle s).1,
    refl,
    subscribe-InStep db tables id handle s h,
  )
  run_command-Continues (do_unsubscribe id) s h =
      ((unsubscribe id s).1, refl, unsubscribe-InStep id s h)
  run_command-Continues (do_unobserve db) s h = ((unobserve db s).1, refl, unobserve-InStep db s h)

  -- Commands that run one after the other never panic; and behind them the database of every
  -- subscription is loaded and observed, none has more than 100 subscriptions, and the ids differ, if
  -- that was so before.
  pub run_all-InStep :
      (cs : List (ObservationCommand D H)) (s : Shared D H)
      → InStep s
      → (end : Shared D H) × (run_all cs s ≡ some end) × InStep end
  unfolding run_all
  run_all-InStep [] s h = (s, refl, h)
  run_all-InStep (c ∷ cs) s h =
      let (next, e, k) = run_command-Continues c s h in
      let (end, f, l) = run_all-InStep cs next k in (end, rw (run_all, e) f, l)
