-- ===== src/Plugin/Subscriptions.antt =====
-- src/subscriptions.rs, the active subscriptions: by their ids, with the task that forwards the
-- changes of each. `H` is the task's abort handle. A call returns the handles that it aborts.
pub mod Filtered
mod Tests
use tauri_plugin_sqlite.Prelude.{
  ℕ, suc, Bool, true, false, List, [], ◌∷◌, ◌++◌, Option, none, some, Text, text_eq, Map, find, put,
  erase, Distinct, if◌then◌else◌,
}

pub record ActiveSubscription (H : Type 0) : Type 0 where
  pub abort_handle : H
  pub db_path : Text

module _ {H : Type 0} where
  unfoldable pub insert_subscription :
      Map (ActiveSubscription H) → Text → Text → H → Map (ActiveSubscription H)
  insert_subscription subs id db_path abort_handle =
      put id (record { abort_handle = abort_handle; db_path = db_path }) subs

  abbrev pub handle_of : Option (ActiveSubscription H) → List H
  handle_of none = []
  handle_of (some sub) = sub.abort_handle ∷ []

  -- The subscriptions behind it, the aborted handles, and whether there was one.
  unfoldable pub remove_subscription :
      Map (ActiveSubscription H) → Text → Map (ActiveSubscription H) × List H × Bool
  remove_subscription subs id = elim (find id subs) [
    | none ↦ (subs, [], false)
    | some sub ↦ (erase id subs, sub.abort_handle ∷ [], true)
  ]

  -- `iter().filter(…).map(…).collect()`
  unfoldable pub keys_to_remove : Map (ActiveSubscription H) → Text → List Text
  keys_to_remove [] db_path = []
  keys_to_remove ((id, sub) ∷ subs) db_path =
      let rest = keys_to_remove subs db_path in
      if text_eq sub.db_path db_path then id ∷ rest else rest

  unfoldable pub remove_keys :
      Map (ActiveSubscription H) → List Text → Map (ActiveSubscription H) × List H
  unfolding remove_subscription
  remove_keys subs [] = (subs, [])
  remove_keys subs (key ∷ keys) =
      let one = remove_subscription subs key in
      let rest = remove_keys one.0 keys in (rest.0, one.1 ++ rest.1)

  unfoldable pub remove_for_db :
      Map (ActiveSubscription H) → Text → Map (ActiveSubscription H) × List H
  unfolding keys_to_remove remove_keys
  remove_for_db subs db_path = remove_keys subs (keys_to_remove subs db_path)

  unfoldable pub count_for_db : Map (ActiveSubscription H) → Text → ℕ
  count_for_db [] db_path = 0
  count_for_db ((id, sub) ∷ subs) db_path =
      let rest = count_for_db subs db_path in if text_eq sub.db_path db_path then suc rest else rest
