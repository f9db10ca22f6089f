-- ===== src/Plugin/Attaching/Tracked.antt =====
-- What a transaction that is executed at once leaves in the registry of tasks.
use tauri_plugin_sqlite.Prelude.{
  ◌≡◌, refl, ◌∙◌, Bool, true, false, List, ◌++◌, Option, none, some, Text, codes, text_eq, Map,
  find, put, erase, Distinct, find-put, find-put_other, find-erase, find-erase_other, put-Distinct,
  if◌then◌else◌, ok, ℕ,
}
use tauri_plugin_sqlite.ConnMgr.Attached.{AttachedSpec}
use tauri_plugin_sqlite.Toolkit.Wrapper.{DatabaseWrapper}
use tauri_plugin_sqlite.Toolkit.Transactions.Regular.{insert_regular, remove_regular}
use tauri_plugin_sqlite.Plugin.Attaching.{
  AttachedDatabaseSpec, Joined, returned, cancelled, panicked, track, join_result, resolve_attached,
  execute_transaction,
}

abbrev runs_to_end : {A : Type 0} → Joined A → Bool
runs_to_end (returned r) = true
runs_to_end cancelled = false
runs_to_end (panicked e) = false

module _ {H : Type 0} (key : Text) (handle : H) (txs : Map H) (different : Distinct txs) where
  -- Put and removed again.
  gone : find key (remove_regular key (insert_regular key handle txs)) ≡ none
  unfolding remove_regular insert_regular
  gone = find-erase key (put key handle txs) (put-Distinct key handle txs different)

  kept : find key (insert_regular key handle (remove_regular key txs)) ≡ some handle
  unfolding remove_regular insert_regular
  kept = find-put key handle (erase key txs)

  find-track :
      {A : Type 0} (early : Bool) (joined : Joined A)
      → find key (track early key handle joined txs)
        ≡ (if early then (if runs_to_end joined then some handle else none) else none)
  unfolding track
  find-track true (returned r) = kept
  find-track false (returned r) = gone
  find-track true cancelled = gone
  find-track false cancelled = gone
  find-track true (panicked e) = gone
  find-track false (panicked e) = gone

  after_put :
      (k : Text) → text_eq key k ≡ false → find k (erase key (put key handle txs)) ≡ find k txs
  after_put k n = find-erase_other k key (put key handle txs) n ∙ find-put_other k key handle txs n

  -- The entries of other transactions.
  track-other :
      {A : Type 0} (k : Text) (early : Bool) (joined : Joined A)
      → text_eq key k ≡ false
      → find k (track early key handle joined txs) ≡ find k txs
  unfolding track insert_regular remove_regular
  track-other k true (returned r) n =
      find-put_other k key handle (erase key txs) n ∙ find-erase_other k key txs n
  track-other k false (returned r) n = after_put k n
  track-other k early cancelled n = after_put k n
  track-other k early (panicked e) n = after_put k n

module _ {A H : Type 0} (task : DatabaseWrapper ℕ → List AttachedSpec → Joined A) (db id : Text)
    (handle : H) (attached : Option (List AttachedDatabaseSpec))
    (instances : Map (DatabaseWrapper ℕ)) (txs : Map H) (w : DatabaseWrapper ℕ)
    (specs : List AttachedSpec) where
  -- With a database that is loaded and specs that resolve, the command answers with what the task
  -- comes to, and leaves the entries of other transactions. Its own entry is gone behind it, except
  -- if the task runs to its end before the command has put the handle there: then it stays.
  pub execute_transaction-tracks :
      (early : Bool)
      → find db instances ≡ some w
      → resolve_attached attached instances ≡ ok specs
      → Distinct txs
      → let out = execute_transaction task early db id handle attached instances txs in
        let key = db ++ (codes ":" ++ id) in
        (out.0 ≡ join_result (task w specs))
        × (find key out.1
            ≡ (if early then (if runs_to_end (task w specs) then some handle else none) else none))
        × ((k : Text) → text_eq key k ≡ false → find k out.1 ≡ find k txs)
  unfolding execute_transaction
  execute_transaction-tracks early loaded resolves different =
      let key = db ++ (codes ":" ++ id) in
      rw (loaded, execute_transaction)
        (rw resolves (
          refl,
          find-track key handle txs different early (task w specs),
          (λ k n. track-other key handle txs different k early (task w specs) n),
        ))
