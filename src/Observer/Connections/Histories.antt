-- ===== src/Observer/Connections/Histories.antt =====
-- Whatever happens to the connections, the contexts of their hooks stay sound.
use tauri_plugin_sqlite.Prelude.{
  ℕ, ◌≡◌, refl, sym, subst, inl, inr, Bool, true, false, List, [], ◌∷◌, none, some, Text, Result,
  ok, err,
}
use tauri_plugin_sqlite.Observer.{ObserverError}
use tauri_plugin_sqlite.Observer.Connections.{
  no_hooks, hooks_of, live, ObservableConnection, Holder, pooled, observed, plain, HookHeap,
  register_hooks, register, unhook, into_inner, World, lend, acquire_observed, HookKind,
  on_preupdate, on_commit, on_rollback, call_hook, ConnectionEvent, acquired, registered_again,
  taken_out, guard_dropped, released, called, act, act_all, at_first,
}
use tauri_plugin_sqlite.Observer.Connections.Sound.{
  hooked, Clean, Clean-cases, Sound, lend-Sound, hook-Sound, unhook-Sound, no_hooks-ne,
}

module _ (w : World) (sound : Sound w) (c : ℕ) where
  -- A hook that is called finds a live context.
  call_hook-safe : (k : HookKind) → call_hook k c w.heap ≡ w.heap
  unfolding call_hook
  call_hook-safe k = elim (Clean-cases w.heap c (w.holder c) (sound.clean c)) [
    | inl free ↦ call_free k free
    | inr (x, has, alive) ↦ call_live k x has alive
  ]
    where
      call_free : (k : HookKind) → w.heap.slots c ≡ no_hooks → call_hook k c w.heap ≡ w.heap
      call_free on_preupdate free = rw (free, call_hook) refl
      call_free on_commit free = rw (free, call_hook) refl
      call_free on_rollback free = rw (free, call_hook) refl

      call_live :
          (k : HookKind) (x : ℕ)
          → w.heap.slots c ≡ hooks_of x
          → w.heap.contexts x ≡ live
          → call_hook k c w.heap ≡ w.heap
      call_live on_preupdate x has alive = rw (has, call_hook) (rw alive refl)
      call_live on_commit x has alive = rw (has, call_hook) (rw alive refl)
      call_live on_rollback x has alive = rw (has, call_hook) (rw alive refl)

  -- A connection without hooks that the pool gives.
  acquire_observed-Sound :
      (info : Result ObserverError (Unit {0})) (locked : Result Text (Unit {0})) (supported : Bool)
      → w.heap.slots c ≡ no_hooks
      → Sound (acquire_observed c info locked supported w)
  unfolding acquire_observed unhook register register_hooks
  acquire_observed-Sound (err e) locked supported free = lend-Sound w sound c pooled free
  acquire_observed-Sound (ok u) (err e) supported free = lend-Sound w sound c pooled free
  acquire_observed-Sound (ok u) (ok v) false free = lend-Sound w sound c pooled free
  acquire_observed-Sound (ok u) (ok v) true free = hook-Sound w sound c free

  -- A wrapper that is dropped or taken apart.
  observed-Sound :
      (g : ObservableConnection) (at : Holder)
      → ((h : HookHeap) → h.slots c ≡ no_hooks → Clean h c at)
      → w.holder c ≡ observed g
      → Sound (lend c at (unhook g w.heap) w)
  observed-Sound g at fits e =
      let (x, has, alive, full) = subst (λ a. Clean w.heap c a) e (sound.clean c) in
      subst (λ f. Sound (lend c at (unhook f w.heap) w)) (sym full)
        (unhook-Sound w sound c x has at fits)

  free-Sound : (at : Holder) → w.holder c ≡ at → Clean w.heap c at
  free-Sound at e = subst (λ a. Clean w.heap c a) e (sound.clean c)

  act_acquired :
      (info : Result ObserverError (Unit {0})) (locked : Result Text (Unit {0})) (supported : Bool)
      (at : Holder)
      → w.holder c ≡ at
      → Sound (act (acquired c info locked supported) w)
  unfolding act
  act_acquired info locked supported pooled e =
      rw (e, act) (acquire_observed-Sound info locked supported (free-Sound pooled e))
  act_acquired info locked supported plain e = rw (e, act) sound
  act_acquired info locked supported (observed g) e = rw (e, act) sound

  act_registered_again :
      (locked : Result Text (Unit {0})) (supported : Bool) (at : Holder)
      → w.holder c ≡ at
      → Sound (act (registered_again c locked supported) w)
  unfolding act register
  act_registered_again locked supported pooled e = rw (e, act) sound
  act_registered_again locked supported plain e = rw (e, act) sound
  act_registered_again locked supported (observed g) e =
      let held = free-Sound (observed g) e in
      rw (e, act)
        (subst
          (λ f. Sound (elim (register locked supported f w.heap) [
            | none ↦ w
            | some done ↦ lend c (observed done.1) done.2 w
          ]))
          (sym held.3) (lend-Sound w sound c (observed (hooked c)) (held.0, held.1, held.2, refl)))

  act_taken_out : (at : Holder) → w.holder c ≡ at → Sound (act (taken_out c) w)
  unfolding act into_inner unhook
  act_taken_out pooled e = rw (e, act) sound
  act_taken_out plain e = rw (e, act) sound
  act_taken_out (observed g) e = rw (e, act) (observed-Sound g plain (λ h free. free) e)

  act_guard_dropped : (at : Holder) → w.holder c ≡ at → Sound (act (guard_dropped c) w)
  unfolding act
  act_guard_dropped pooled e = rw (e, act) sound
  act_guard_dropped plain e = rw (e, act) sound
  act_guard_dropped (observed g) e = rw (e, act) (observed-Sound g pooled (λ h free. free) e)

  act_released : (at : Holder) → w.holder c ≡ at → Sound (act (released c) w)
  unfolding act
  act_released pooled e = rw (e, act) sound
  act_released plain e = rw (e, act) (lend-Sound w sound c pooled (free-Sound plain e))
  act_released (observed g) e = rw (e, act) sound

  act_called : (k : HookKind) → Sound (act (called k c) w)
  unfolding act
  act_called k = subst (λ h. Sound (record w { heap = h })) (sym (call_hook-safe k)) sound

act-Sound : (e : ConnectionEvent) (w : World) → Sound w → Sound (act e w)
act-Sound (acquired c info locked supported) w s =
    act_acquired w s c info locked supported (w.holder c) refl
act-Sound (registered_again c locked supported) w s =
    act_registered_again w s c locked supported (w.holder c) refl
act-Sound (taken_out c) w s = act_taken_out w s c (w.holder c) refl
act-Sound (guard_dropped c) w s = act_guard_dropped w s c (w.holder c) refl
act-Sound (released c) w s = act_released w s c (w.holder c) refl
act-Sound (called k c) w s = act_called w s c k

run-Sound : (es : List ConnectionEvent) (w : World) → Sound w → Sound (act_all es w)
unfolding act_all
run-Sound [] w s = s
run-Sound (e ∷ es) w s = run-Sound es (act e w) (act-Sound e w s)

-- Whatever happens to the connections, errors included: no callback reads a context that was freed
-- or never allocated, and none is freed twice; a connection has hooks exactly if it is lent in a
-- wrapper, so one that is in the pool or was taken out of its wrapper has none; two connections
-- share no context; and every context that is not freed is that of a lent connection.
pub act_all-Sound : (es : List ConnectionEvent) → Sound (act_all es at_first)
act_all-Sound es = run-Sound es at_first (record {
  clean = λ c. refl;
  unique = λ c d x q r. absurd (no_hooks-ne x q);
  fresh = λ x le. refl;
  owned = λ x l. absurd (cc);
  safe = refl;
})
