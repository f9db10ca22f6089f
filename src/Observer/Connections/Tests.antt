-- ===== src/Observer/Connections/Tests.antt =====
-- A connection is lent, changes a row, is taken out of its wrapper and goes back; then acquiring
-- fails once.
use tauri_plugin_sqlite.Prelude.{◌≡◌, refl, true, [], ◌∷◌, List, ok, err, codes}
use tauri_plugin_sqlite.Observer.Connections.{
  ConnectionEvent, acquired, registered_again, taken_out, released, called, on_preupdate, on_commit,
  act_all, at_first, freed, hooks_of,
}
use tauri_plugin_sqlite.Observer.Connections.Sound.{Sound}
use tauri_plugin_sqlite.Observer.Connections.Histories.{act_all-Sound}

abbrev lent : List ConnectionEvent
lent =
    acquired 1 (ok tt) (ok tt) true
    ∷ (called on_preupdate 1 ∷ (registered_again 1 (ok tt) true ∷ (called on_commit 1 ∷ [])))

abbrev back : List ConnectionEvent
back = taken_out 1 ∷ (released 1 ∷ (acquired 1 (ok tt) (err (codes "busy")) true ∷ []))

while_lent : (act_all lent at_first).heap.slots 1 ≡ hooks_of 0
unfolding act_all
while_lent = refl

behind : (act_all back (act_all lent at_first)).heap.contexts 0 ≡ freed
unfolding act_all
behind = refl

act_all-Sound_example : Sound (act_all lent at_first)
act_all-Sound_example = act_all-Sound lent
