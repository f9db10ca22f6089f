-- ===== src/Plugin/Exit/Phases.antt =====
-- The cleanup runs once, and the app exits behind it.
use tauri_plugin_sqlite.Prelude.{
  ℕ, false, List, [], ◌∷◌, Option, none, some, ◌≡◌, ◌⊎◌, ◌↔◌, refl, ap, sym, ◌∙◌, inl, inr,
}
use tauri_plugin_sqlite.Plugin.Exit.{
  running, complete, ExitState, on_exit_requested, drop_guard, ExitEvent, exit_requested, task_ends,
  run_exit, at_start,
}

-- The three states that the app goes through.
abbrev pub during : ExitState
during = record { cleanup = running; tasks = 1; started = 1; exits = 0 }

abbrev pub at_end : ExitState
at_end = record { cleanup = complete; tasks = 0; started = 1; exits = 1 }

abbrev pub InPhase : ExitState → Type 0
InPhase s = (s ≡ at_start) ⊎ (s ≡ during) ⊎ (s ≡ at_end)

on_exit_requested-InPhase :
    (code : Option ℕ) (s : ExitState) → InPhase s → InPhase (on_exit_requested code s).1
unfolding on_exit_requested
on_exit_requested-InPhase (some code) s h = h
on_exit_requested-InPhase none s (inl e) = inr (inl (ap (λ x. (on_exit_requested none x).1) e))
on_exit_requested-InPhase none s (inr (inl e)) =
    inr (inl (ap (λ x. (on_exit_requested none x).1) e))
on_exit_requested-InPhase none s (inr (inr e)) =
    inr (inr (ap (λ x. (on_exit_requested none x).1) e))

drop_guard-InPhase : (s : ExitState) → InPhase s → InPhase (drop_guard s)
unfolding drop_guard
drop_guard-InPhase s (inl e) = inl (ap drop_guard e)
drop_guard-InPhase s (inr (inl e)) = inr (inr (ap drop_guard e))
drop_guard-InPhase s (inr (inr e)) = inr (inr (ap drop_guard e))

run_exit-phases :
    (events : List ExitEvent) (s : ExitState) → InPhase s → InPhase (run_exit events s)
unfolding run_exit
run_exit-phases [] s h = h
run_exit-phases (exit_requested code ∷ events) s h =
    run_exit-phases events (on_exit_requested code s).1 (on_exit_requested-InPhase code s h)
run_exit-phases (task_ends ∷ events) s h =
    run_exit-phases events (drop_guard s) (drop_guard-InPhase s h)

prevents : (s : ExitState) → InPhase s → ((on_exit_requested none s).0 ≡ false) ↔ (s ≡ at_end)
unfolding on_exit_requested
prevents s (inl e) = (
  λ h. let r = ap (λ x. (on_exit_requested none x).0) (sym e) ∙ h in absurd cc,
  λ k. ap (λ x. (on_exit_requested none x).0) k,
)
prevents s (inr (inl e)) = (
  λ h. let r = ap (λ x. (on_exit_requested none x).0) (sym e) ∙ h in absurd cc,
  λ k. ap (λ x. (on_exit_requested none x).0) k,
)
prevents s (inr (inr e)) = (λ h. e, λ k. ap (λ x. (on_exit_requested none x).0) k)

-- Whatever requests to exit come, in any number and order with the ends of tasks, the app is in one
-- of three states: no cleanup was started; one was started, runs, and the exit was not asked for; or
-- one was started and ended, and the exit was asked for once. The user's request is let through
-- exactly in the last one.
pub run_exit-InPhase :
    (events : List ExitEvent)
    → let s = run_exit events at_start in
      InPhase s × (((on_exit_requested none s).0 ≡ false) ↔ (s ≡ at_end))
run_exit-InPhase events =
    let phase = run_exit-phases events at_start (inl refl) in
    (phase, prevents (run_exit events at_start) phase)
