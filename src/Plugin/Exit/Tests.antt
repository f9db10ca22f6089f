-- ===== src/Plugin/Exit/Tests.antt =====
-- The user asks twice to exit while the cleanup runs, which then ends.
use tauri_plugin_sqlite.Prelude.{false, List, [], ◌∷◌, none, some, ◌≡◌, ◌↔◌, refl}
use tauri_plugin_sqlite.Plugin.Exit.{
  ExitEvent, exit_requested, task_ends, run_exit, at_start, on_exit_requested, drop_guard,
}
use tauri_plugin_sqlite.Plugin.Exit.Phases.{InPhase, at_end, run_exit-InPhase}

abbrev events : List ExitEvent
events = exit_requested none ∷ exit_requested none ∷ task_ends ∷ exit_requested (some 0) ∷ []

events_run : run_exit events at_start ≡ at_end
unfolding run_exit on_exit_requested drop_guard
events_run = refl

run_exit-InPhase_example :
    InPhase (run_exit events at_start)
    × (((on_exit_requested none (run_exit events at_start)).0 ≡ false)
        ↔ (run_exit events at_start ≡ at_end))
run_exit-InPhase_example = run_exit-InPhase events
