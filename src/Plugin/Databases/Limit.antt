-- ===== src/Plugin/Databases/Limit.antt =====
-- The limit on the databases that are loaded, through any sequence of commands.
use tauri_plugin_sqlite.Prelude.{
  ℕ, suc, true, false, List, [], ◌∷◌, none, Text, Map, find, put, erase, ◌≤◌, leb, length, Result,
  ok, err, ◌≡◌, ◌⊎◌, refl, sym, subst, arith, Bool-cases, Option-cases, Result-cases, inl, inr,
  Distinct, put-Distinct, erase-Distinct,
}
use tauri_plugin_sqlite.Plugin.{PluginError, too_many_databases}
use tauri_plugin_sqlite.Plugin.Subscriptions.{ActiveSubscription}
use tauri_plugin_sqlite.Plugin.Databases.{DbInstances, load, is_loaded, close_database, close_all}

-- What the commands do with the databases that are loaded.
pub data Command (W : Type 0) : Type 0 where
  do_load : Result PluginError W → Text → DbInstances W → Command W
  do_close : (W → Result PluginError (Unit {0})) → Text → Command W
  do_close_all : (W → Result PluginError (Unit {0})) → Command W

module _ {W : Type 0} where
  put-length :
      (k : Text) (w : W) (m : Map W) → find k m ≡ none → length (put k w m) ≡ suc (length m)
  unfolding find put
  put-length k w [] h = refl
  put-length k w ((l, v) ∷ m) h = ground (arith, put-length k w m)

  erase-length : (k : Text) (m : Map W) → length (erase k m) ≤ length m
  unfolding erase
  erase-length k [] = omega arith
  erase-length k ((l, v) ∷ m) = ground (arith, erase-length k m)

  le_put :
      (k : Text) (w : W) (m : Map W) (max : ℕ)
      → find k m ≡ none
      → leb max (length m) ≡ false
      → length (put k w m) ≤ max
  le_put k w m max f l = let n = put-length k w m f in ground (arith, n)

  -- At most as many databases as allowed, under different paths.
  unfoldable pub Limited : DbInstances W → Type 0
  Limited instances = (length instances.inner ≤ instances.max) × Distinct instances.inner

  not_loaded : (db : Text) (m : Map W) → is_loaded db m ≡ false → find db m ≡ none
  not_loaded db m h = elim (Option-cases (find db m)) [
    | inl f ↦ f
    | inr (w, f) ↦ absurd (let r : true ≡ false = rw (is_loaded, f) at h in cc)
  ]

  -- A call of `load` changes nothing, or adds the database below the limit.
  pub load-cases :
      (connect : Result PluginError W) (db : Text) (earlier instances : DbInstances W)
      → ((r : Result PluginError Text) × (load connect db earlier instances ≡ (r, instances)))
        ⊎ ((w : W) × (find db instances.inner ≡ none)
            × (leb instances.max (length instances.inner) ≡ false)
            × (load connect db earlier instances
                ≡ (ok db, record instances { inner = put db w instances.inner })))
  unfolding load
  load-cases connect db earlier instances = elim (Bool-cases (is_loaded db earlier.inner)) [
    | inl e ↦ inl (ok db, rw (load, e) refl)
    | inr e ↦ elim (Bool-cases (is_loaded db instances.inner)) [
      | inl f ↦ inl (ok db, rw (load, e) (rw f refl))
      | inr f ↦ elim (Bool-cases (leb instances.max (length instances.inner))) [
        | inl l ↦ inl (err (too_many_databases instances.max), rw (load, e) (rw f (rw l refl)))
        | inr l ↦ elim (Result-cases connect) [
          | inr (m, c) ↦ inl (err m, rw (load, e) (rw f (rw l (rw c refl))))
          | inl (w, c) ↦
              inr (w, not_loaded db instances.inner f, l, rw (load, e) (rw f (rw l (rw c refl))))
        ]
      ]
    ]
  ]

  load-Limited :
      (connect : Result PluginError W) (db : Text) (earlier instances : DbInstances W)
      → Limited instances
      → Limited (load connect db earlier instances).1
  unfolding Limited
  load-Limited connect db earlier instances h =
      let Goal : Result PluginError Text × DbInstances W → Type 0 = λ o. Limited o.1 in
      elim (load-cases connect db earlier instances) [
        | inl (r, is) ↦ subst Goal (sym is) h
        | inr (w, f, l, is) ↦
            subst Goal (sym is)
              (le_put db w instances.inner instances.max f l, put-Distinct db w instances.inner h.1)
      ]

  module _ {H : Type 0} where
    -- A state of the plugin: databases and subscriptions.
    unfoldable pub run_command :
        Command W
        → DbInstances W × Map (ActiveSubscription H)
        → DbInstances W × Map (ActiveSubscription H)
    run_command (do_load connect db earlier) (instances, subs) =
        ((load connect db earlier instances).1, subs)
    run_command (do_close shut db) (instances, subs) =
        let out = close_database shut db instances subs in (out.1, out.2)
    run_command (do_close_all shut) (instances, subs) =
        let out = close_all shut instances subs in (out.1, out.2)

    unfoldable pub run_commands :
        List (Command W)
        → DbInstances W × Map (ActiveSubscription H)
        → DbInstances W × Map (ActiveSubscription H)
    run_commands [] state = state
    run_commands (c ∷ cs) state = run_commands cs (run_command c state)

    close_database-Limited :
        (shut : W → Result PluginError (Unit {0})) (db : Text) (instances : DbInstances W)
        (subs : Map (ActiveSubscription H))
        → Limited instances
        → Limited (close_database shut db instances subs).1
    unfolding close_database Limited
    close_database-Limited shut db instances subs h =
        let out = (close_database shut db instances subs).1 in
        elim (Option-cases (find db instances.inner)) [
          | inl f ↦
              let is : out ≡ instances = rw (close_database, f) refl in subst Limited (sym is) h
          | inr (w, f) ↦
              let is : out ≡ record instances { inner = erase db instances.inner } =
                rw (close_database, f) refl in
              subst Limited (sym is) (
                omega (arith, erase-length db instances.inner, h.0),
                erase-Distinct db instances.inner h.1,
              )
        ]

    run_command-Limited :
        (c : Command W) (state : DbInstances W × Map (ActiveSubscription H))
        → Limited state.0
        → Limited (run_command c state).0
    unfolding run_command close_all Limited Distinct
    run_command-Limited (do_load connect db earlier) (instances, subs) h =
        load-Limited connect db earlier instances h
    run_command-Limited (do_close shut db) (instances, subs) h =
        close_database-Limited shut db instances subs h
    run_command-Limited (do_close_all shut) (instances, subs) h = (omega arith, tt)

    -- From a state that keeps it, every sequence of commands keeps the limit, and one database for a
    -- path, though `load` first looks at a state that may be out of date and connecting may fail.
    pub run_commands-Limited :
        (cs : List (Command W)) (state : DbInstances W × Map (ActiveSubscription H))
        → Limited state.0
        → Limited (run_commands cs state).0
    unfolding run_commands
    run_commands-Limited [] state h = h
    run_commands-Limited (c ∷ cs) state h =
        run_commands-Limited cs (run_command c state) (run_command-Limited c state h)
