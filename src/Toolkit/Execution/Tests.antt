-- ===== src/Toolkit/Execution/Tests.antt =====
-- A counter as database: the statement "+" adds one, and any other plain statement fails.
use tauri_plugin_sqlite.Prelude.{
  ℕ, suc, Bool, true, false, [], ◌∷◌, Text, codes, text_eq, if◌then◌else◌, Result, ok, err, ◌≡◌,
  refl,
}
use tauri_plugin_sqlite.Toolkit.{Error, transaction_already_finalized}
use tauri_plugin_sqlite.Toolkit.Transactions.{TransactionWriter, Statement, execute_all}
use tauri_plugin_sqlite.Toolkit.Execution.{execute_transaction, commit_or_rollback}
use tauri_plugin_sqlite.Toolkit.Execution.Atomic.{
  Transactional, AllOrNothing, execute_transaction-AllOrNothing,
}

record Counter : Type 0 where
  stored : ℕ
  current : ℕ
  opened : Bool

abbrev failing : Error
failing = transaction_already_finalized

-- The statements that the counter knows.
data Order : Type 0 where
  order_begin : Order
  order_commit : Order
  order_rollback : Order
  order_add : Order
  order_other : Order

abbrev order_of : Text → Order
order_of q =
    if text_eq q (codes "BEGIN IMMEDIATE")
    then order_begin
    else if text_eq q (codes "COMMIT")
    then order_commit
    else if text_eq q (codes "ROLLBACK")
    then order_rollback
    else if text_eq q (codes "+")
    then order_add
    else order_other

abbrev obey : Order → Counter → Result Error ℕ × Counter
obey order_begin w = (ok 0, record w { current = w.stored; opened = true })
obey order_commit w = (ok 0, record w { stored = w.current; opened = false })
obey order_rollback w = (ok 0, record w { current = w.stored; opened = false })
obey order_add w = (ok 1, record w { current = suc w.current })
obey order_other w = (err failing, w)

abbrev counter_sql : TransactionWriter Counter ℕ ℕ
counter_sql = record {
  execute_query = λ w q vs. obey (order_of q) w;
  fetch_all = λ w q vs. (ok [], w);
  detach_if_attached = λ w. ok tt;
}

abbrev IsPlain : Order → Type 0
IsPlain order_add = Unit
IsPlain order_other = Unit
IsPlain order_begin = ⊥
IsPlain order_commit = ⊥
IsPlain order_rollback = ⊥

obey-stored : (o : Order) (w : Counter) → IsPlain o → Counter.stored (obey o w).1 ≡ w.stored
obey-stored order_add w p = refl
obey-stored order_other w p = refl
obey-stored order_begin w p = absurd p
obey-stored order_commit w p = absurd p
obey-stored order_rollback w p = absurd p

obey-opened :
    (o : Order) (w : Counter) → IsPlain o → w.opened ≡ true → Counter.opened (obey o w).1 ≡ true
obey-opened order_add w p h = h
obey-opened order_other w p h = h
obey-opened order_begin w p h = absurd p
obey-opened order_commit w p h = absurd p
obey-opened order_rollback w p h = absurd p

counter_transactional : Transactional counter_sql ℕ
unfolding text_eq
counter_transactional = record {
  committed = λ w. w.stored;
  pending = λ w. w.current;
  in_transaction = λ w. w.opened;
  Plain = λ q. IsPlain (order_of q);
  begin_opens = λ w r h. (refl, refl, refl);
  begin_fails = λ w e h. refl;
  plain_keeps = λ w q vs p h. obey-stored (order_of q) w p;
  plain_stays = λ w q vs r p h d. obey-opened (order_of q) w p h;
  commit_commits = λ w r h d. refl;
  commit_fails = λ w e h. absurd cc;
  rollback_keeps = λ w. refl;
}

abbrev idle : Counter
idle = record { stored = 4; current = 4; opened = false }

abbrev add : Statement ℕ
add = record { query = codes "+"; values = [] }

abbrev bad : Statement ℕ
bad = record { query = codes "oops"; values = [] }

add_run :
    execute_transaction counter_sql (ok idle) (add ∷ add ∷ [])
    ≡ (ok (1 ∷ 1 ∷ []), record { stored = 6; current = 6; opened = false } ∷ [])
unfolding execute_transaction execute_all commit_or_rollback text_eq
add_run = refl

-- The first statement is undone.
bad_run : execute_transaction counter_sql (ok idle) (add ∷ bad ∷ []) ≡ (err failing, idle ∷ [])
unfolding execute_transaction execute_all commit_or_rollback text_eq
bad_run = refl

execute_transaction-AllOrNothing_example :
    AllOrNothing counter_sql counter_transactional idle
      (add ∷ bad ∷ [])
      (execute_transaction counter_sql (ok idle) (add ∷ bad ∷ []))
unfolding text_eq counter_transactional
execute_transaction-AllOrNothing_example =
    execute_transaction-AllOrNothing counter_sql counter_transactional idle (add ∷ bad ∷ [])
      (tt, (tt, tt))
