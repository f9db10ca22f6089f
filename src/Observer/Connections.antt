-- ===== src/Observer/Connections.antt =====
-- crates/sqlx-sqlite-observer/src/connection.rs, conn_mgr.rs, observer.rs and hooks.rs: the
-- connections that are lent with hooks registered, and the contexts of the hooks, which are
-- allocated by hand. A connection and a context are numbers. `ObservableConnection` and
-- `ObservableWriteGuard` do the same around a connection of the pool and around a writer.
pub mod Sound
pub mod Histories
mod Tests
use tauri_plugin_sqlite.Prelude.{
  ℕ, suc, Bool, true, false, List, [], ◌∷◌, ◌++◌, Option, none, some, Text, ◌==◌, if◌then◌else◌,
  Result, ok, err, codes,
}
use tauri_plugin_sqlite.Observer.{ObserverError, hook_registration, database}

-- The three hooks of a connection, each with the context that SQLite hands to its callback.
pub record Slots : Type 0 where
  pub preupdate_hook : Option ℕ
  pub commit_hook : Option ℕ
  pub rollback_hook : Option ℕ

abbrev pub no_hooks : Slots
no_hooks = record { preupdate_hook = none; commit_hook = none; rollback_hook = none }

abbrev pub hooks_of : ℕ → Slots
hooks_of x = record { preupdate_hook = some x; commit_hook = some x; rollback_hook = some x }

-- `Box<HookContext>` on the heap.
pub data HookContext : Type 0 where
  unallocated : HookContext
  live : HookContext
  freed : HookContext

pub record ObservableConnection : Type 0 where
  pub conn : Option ℕ
  pub hooks_registered : Bool
  pub raw_db : Option ℕ

-- Where a connection is: in its pool, lent with hooks, or lent as it is.
pub data Holder : Type 0 where
  pooled : Holder
  observed : ObservableConnection → Holder
  plain : Holder

-- `fault` says whether a freed context was used or freed again.
pub record HookHeap : Type 0 where
  pub slots : ℕ → Slots
  pub contexts : ℕ → HookContext
  pub next : ℕ
  pub fault : Bool

abbrev pub set_at : {A : Type 0} → (ℕ → A) → ℕ → A → ℕ → A
set_at f k a i = if i == k then a else f i

abbrev pub is_live : HookContext → Bool
is_live unallocated = false
is_live live = true
is_live freed = false

abbrev unsupported : Text
unsupported =
    codes "SQLite was not compiled with SQLITE_ENABLE_PREUPDATE_HOOK. "
    ++ (codes "Ensure you're using a SQLite build with preupdate hook support, "
        ++ codes "or enable the 'bundled' feature on libsqlite3-sys.")

-- `hooks::register_hooks`; `supported` is `is_preupdate_hook_enabled()`. The contexts that were set
-- before are passed over.
unfoldable pub register_hooks : Bool → ℕ → HookHeap → Result ObserverError (Unit {0}) × HookHeap
register_hooks supported db h =
    if supported
    then (
      ok tt,
      record {
        slots = set_at h.slots db (hooks_of h.next);
        contexts = set_at h.contexts h.next live;
        next = suc h.next;
        fault = h.fault;
      },
    )
    else (err (hook_registration unsupported), h)

-- `hooks::unregister_hooks`
unfoldable pub unregister_hooks : ℕ → HookHeap → HookHeap
unregister_hooks db h = elim (h.slots db).preupdate_hook [
  | none ↦ record h { slots = set_at h.slots db no_hooks }
  | some x ↦ record {
    slots = set_at h.slots db no_hooks;
    contexts = set_at h.contexts x freed;
    next = h.next;
    fault = if is_live (h.contexts x) then h.fault else true;
  }
]

abbrev pub new_connection : ℕ → ObservableConnection
new_connection c = record { conn = some c; hooks_registered = false; raw_db = none }

-- `ObservableConnection::register_hooks`; `locked` is what `lock_handle` gives. A connection that
-- was taken out makes it panic, which is `none`.
unfoldable pub register :
    Result Text (Unit {0})
    → Bool
    → ObservableConnection
    → HookHeap
    → Option (Result ObserverError (Unit {0}) × ObservableConnection × HookHeap)
unfolding register_hooks
register locked supported g h = if g.hooks_registered then some (ok tt, g, h) else elim g.conn [
  | none ↦ none
  | some c ↦ elim locked [
    | err e ↦ some (err (database (codes "Failed to lock connection handle: " ++ e)), g, h)
    | ok _ ↦
        let done = register_hooks supported c h in
        elim done.0 [
          | err e ↦ some (err e, g, done.1)
          | ok _ ↦
              some
                (ok tt, record { conn = some c; hooks_registered = true; raw_db = some c }, done.1)
        ]
  ]
]

-- `drop`
unfoldable pub unhook : ObservableConnection → HookHeap → HookHeap
unfolding unregister_hooks
unhook g h = elim g.raw_db [
  | none ↦ h
  | some db ↦ if g.hooks_registered then unregister_hooks db h else h
]

-- `into_inner`, with the wrapper that it leaves and that is dropped at its end.
unfoldable pub into_inner : ObservableConnection → HookHeap → Option ℕ × HookHeap
unfolding unhook
into_inner g h =
    let hooked = unhook g h in
    let spent : ObservableConnection = record {
      conn = none;
      hooks_registered = false;
      raw_db = none;
    } in
    (g.conn, unhook spent hooked)

pub record World : Type 0 where
  pub heap : HookHeap
  pub holder : ℕ → Holder

abbrev pub lend : ℕ → Holder → HookHeap → World → World
lend c at h w = record { heap = h; holder = set_at w.holder c at }

-- `SqliteObserver::acquire` and `ObservableSqliteDatabase::acquire_writer` with a connection that
-- the pool gives: `info` is what `ensure_table_info` gives. On an error the connection is dropped.
unfoldable pub acquire_observed :
    ℕ → Result ObserverError (Unit {0}) → Result Text (Unit {0}) → Bool → World → World
unfolding register unhook
acquire_observed c info locked supported w = elim info [
  | err e ↦ lend c pooled (unhook (new_connection c) w.heap) w
  | ok _ ↦ elim (register locked supported (new_connection c) w.heap) [
    | none ↦ w
    | some done ↦ elim done.0 [
      | err e ↦ lend c pooled (unhook done.1 done.2) w
      | ok _ ↦ lend c (observed done.1) done.2 w
    ]
  ]
]

pub data HookKind : Type 0 where
  on_preupdate on_commit on_rollback : HookKind

abbrev pub slot_of : HookKind → Slots → Option ℕ
slot_of on_preupdate s = s.preupdate_hook
slot_of on_commit s = s.commit_hook
slot_of on_rollback s = s.rollback_hook

-- SQLite calls a hook, which reads its context.
unfoldable pub call_hook : HookKind → ℕ → HookHeap → HookHeap
call_hook k c h = elim (slot_of k (h.slots c)) [
  | none ↦ h
  | some x ↦ record h { fault = if is_live (h.contexts x) then h.fault else true }
]

-- What happens to connections, in any order. A call that does not fit where its connection is does
-- not occur, and changes nothing here.
pub data ConnectionEvent : Type 0 where
  acquired : ℕ → Result ObserverError (Unit {0}) → Result Text (Unit {0}) → Bool → ConnectionEvent
  registered_again : ℕ → Result Text (Unit {0}) → Bool → ConnectionEvent
  taken_out : ℕ → ConnectionEvent
  guard_dropped : ℕ → ConnectionEvent
  released : ℕ → ConnectionEvent
  called : HookKind → ℕ → ConnectionEvent

unfoldable pub act : ConnectionEvent → World → World
unfolding acquire_observed register unhook into_inner call_hook
act (acquired c info locked supported) w = elim (w.holder c) [
  | pooled ↦ acquire_observed c info locked supported w
  | observed g ↦ w
  | plain ↦ w
]
act (registered_again c locked supported) w = elim (w.holder c) [
  | pooled ↦ w
  | plain ↦ w
  | observed g ↦ elim (register locked supported g w.heap) [
    | none ↦ w
    | some done ↦ lend c (observed done.1) done.2 w
  ]
]
act (taken_out c) w = elim (w.holder c) [
  | pooled ↦ w
  | plain ↦ w
  | observed g ↦ lend c plain (into_inner g w.heap).1 w
]
act (guard_dropped c) w = elim (w.holder c) [
  | pooled ↦ w
  | plain ↦ w
  | observed g ↦ lend c pooled (unhook g w.heap) w
]
act (released c) w = elim (w.holder c) [
  | pooled ↦ w
  | observed g ↦ w
  | plain ↦ lend c pooled w.heap w
]
act (called k c) w = record w { heap = call_hook k c w.heap }

unfoldable pub act_all : List ConnectionEvent → World → World
unfolding act
act_all [] w = w
act_all (e ∷ es) w = act_all es (act e w)

-- Every connection is in its pool, without hooks, and no context was allocated.
abbrev pub at_first : World
at_first = record {
  heap = record { slots = λ c. no_hooks; contexts = λ x. unallocated; next = 0; fault = false };
  holder = λ c. pooled;
}
