-- ===== src/Observer/Schema/Informed.antt =====
-- `ensure_table_info` learns what the broker does not know about the observed tables.
use tauri_plugin_sqlite.Prelude.{
  ◌≡◌, refl, sym, ap, ◌∙◌, subst, ◌⊎◌, inl, inr, Bool, true, false, ◌&&◌, ◌||◌, List, [], ◌∷◌,
  Option, none, some, arith, Text, text_eq, text_eq→≡, text_eq_comm, find, put, find-put,
  find-put_other, any, is_empty, if◌then◌else◌, Bool-cases, Option-cases, Result, ok, err, ◌>>=◌,
  map_err,
}
use tauri_plugin_sqlite.ConnMgr.{ConnError}
use tauri_plugin_sqlite.Observer.{ObserverError, sqlx, conn_mgr}
use tauri_plugin_sqlite.Observer.Broker.{TableInfo, ObservationBroker, set_table_info}
use tauri_plugin_sqlite.Observer.Schema.{tables_to_query, set_infos, ensure_table_info, is_none}

-- The info about a table, given what is known and what the query answers.
abbrev pub learned : Option TableInfo → Result ObserverError (Option TableInfo) → Option TableInfo
learned (some info) answer = some info
learned none (ok found) = found
learned none (err e) = none

-- What the query adds to what is known.
abbrev answered : Option TableInfo → Result ObserverError (Option TableInfo) → Option TableInfo
answered known (err e) = known
answered known (ok none) = known
answered known (ok (some info)) = some info

module _ (query : Text → Result ObserverError (Option TableInfo)) (t : Text) where
  set_infos_round :
      (b : ObservationBroker) (table : Text) (tables : List Text)
      (answer : Result ObserverError (Option TableInfo))
      → query table ≡ answer
      → (next : ObservationBroker) × (set_infos query (table ∷ tables) b
          ≡ set_infos query tables next)
        × (find t next.table_info ≡ (
            if text_eq table t then answered (find t b.table_info) answer else find t b.table_info))
  unfolding set_infos set_table_info
  set_infos_round b table tables (err e) q = (b, rw (q, set_infos) refl, ground arith)
  set_infos_round b table tables (ok none) q = (b, rw (q, set_infos) refl, ground arith)
  set_infos_round b table tables (ok (some info)) q = (
    set_table_info b table info,
    rw (q, set_infos) refl,
    elim (Bool-cases (text_eq table t)) [
      | inl e ↦ rw e (
          subst (λ u. find t (put u info b.table_info) ≡ some info) (sym (text_eq→≡ table t e))
            (find-put t info b.table_info))
      | inr e ↦ rw e (find-put_other t table info b.table_info e)
    ],
  )

  -- What a round and the rounds behind it make of what is known.
  answered_both :
      (now later : Bool) (known next : Option TableInfo)
      (answer : Result ObserverError (Option TableInfo))
      → next ≡ (if now then answered known answer else known)
      → (if later then answered next answer else next)
        ≡ (if now || later then answered known answer else known)
  answered_both true true known next (err e) h = h
  answered_both true true known next (ok none) h = h
  answered_both true true known next (ok (some info)) h = refl
  answered_both true false known next answer h = h
  answered_both false true known next answer h = ap (λ k. answered k answer) h
  answered_both false false known next answer h = h

  set_infos-find :
      (tables : List Text) (b : ObservationBroker)
      → find t (set_infos query tables b).table_info ≡ (
          if any (text_eq t) tables
          then answered (find t b.table_info) (query t)
          else find t b.table_info)
  unfolding set_infos
  set_infos-find [] b = refl
  set_infos-find (table ∷ tables) b =
      let (next, same, known) = set_infos_round b table tables (query table) refl in
      ap (λ (c : ObservationBroker). find t c.table_info) same
      ∙ set_infos-find tables next
      ∙ answered_both (text_eq t table) (any (text_eq t) tables) (find t b.table_info)
          (find t next.table_info) (query t) (known ∙ own_answer (text_eq table t) table b refl)
    where
      own_answer :
          (now : Bool) (table : Text) (b : ObservationBroker)
          → text_eq table t ≡ now
          → (if text_eq table t
              then answered (find t b.table_info) (query table)
              else find t b.table_info)
            ≡ (if text_eq t table
                then answered (find t b.table_info) (query t)
                else find t b.table_info)
      own_answer true table b e =
          rw (e, text_eq_comm t table, e)
            (ap (λ u. answered (find t b.table_info) (query u)) (text_eq→≡ table t e))
      own_answer false table b e = rw (e, text_eq_comm t table, e) refl

  -- If `t` is asked for, it is what is learned.
  learned_lem :
      (observed : Bool) (known : Option TableInfo)
      (answer : Result ObserverError (Option TableInfo))
      → (if observed && is_none known then answered known answer else known)
        ≡ (if observed then learned known answer else known)
  learned_lem true none (err e) = refl
  learned_lem true none (ok none) = refl
  learned_lem true none (ok (some info)) = refl
  learned_lem true (some info) answer = refl
  learned_lem false known answer = refl

  tables_to_query-any :
      (b : ObservationBroker) (tables : List Text)
      → any (text_eq t) (tables_to_query b tables)
        ≡ (any (text_eq t) tables && is_none (find t b.table_info))
  unfolding tables_to_query
  tables_to_query-any b [] = refl
  tables_to_query-any b (table ∷ tables) = elim (Option-cases (find table b.table_info)) [
    | inl e ↦
        rw (e, tables_to_query)
          (elim (Bool-cases (text_eq t table)) [
            | inl k ↦ rw k (rw (text_eq→≡ t table k, e) refl)
            | inr k ↦ rw k (tables_to_query-any b tables)
          ])
    | inr (info, e) ↦
        rw (e, tables_to_query)
          (tables_to_query-any b tables ∙ elim (Bool-cases (text_eq t table)) [
            | inl k ↦ rw k (
                let f : find t b.table_info ≡ some info = rw (text_eq→≡ t table k) e in
                rw f (ground arith))
            | inr k ↦ rw k refl
          ])
  ]

-- What the broker knows once it is informed: of an observed table also what the query answers.
abbrev pub IsInformed :
    (Text → Result ObserverError (Option TableInfo))
    → ObservationBroker
    → ObservationBroker
    → Type 0
IsInformed query b b' =
    (t : Text)
    → find t b'.table_info ≡ (
        if any (text_eq t) b.observed_tables
        then learned (find t b.table_info) (query t)
        else find t b.table_info)

module _ (query : Text → Result ObserverError (Option TableInfo)) (b : ObservationBroker) where
  set_infos-IsInformed :
      IsInformed query b (set_infos query (tables_to_query b b.observed_tables) b)
  set_infos-IsInformed t =
      set_infos-find query t (tables_to_query b b.observed_tables) b
      ∙ ap (λ c. if c then answered (find t b.table_info) (query t) else find t b.table_info)
          (tables_to_query-any query t b b.observed_tables)
      ∙ learned_lem query t (any (text_eq t) b.observed_tables) (find t b.table_info) (query t)

  -- What `ensure_table_info` comes to.
  abbrev pub Informs : Result ConnError (Unit {0}) → Result Text (Unit {0}) → Type 0
  Informs pool acquired =
      ((ensure_table_info pool acquired query b).0 ≡ ok tt
        × IsInformed query b (ensure_table_info pool acquired query b).1)
      ⊎ ((e : ObserverError) × ((ensure_table_info pool acquired query b).0 ≡ err e)
          × ((ensure_table_info pool acquired query b).1 ≡ b)
          × ((map_err conn_mgr pool >>= λ _. map_err sqlx acquired) ≡ err e)
          × (is_empty (tables_to_query b b.observed_tables) ≡ false))

  asks :
      (pool : Result ConnError (Unit {0})) (acquired : Result Text (Unit {0}))
      → is_empty (tables_to_query b b.observed_tables) ≡ false
      → Informs pool acquired
  unfolding ensure_table_info
  asks (err e) acquired some_left =
      inr (conn_mgr e, rw some_left refl, rw some_left refl, refl, some_left)
  asks (ok u) (err e) some_left =
      inr (sqlx e, rw some_left refl, rw some_left refl, refl, some_left)
  asks (ok u) (ok v) some_left = inl (rw some_left refl, rw some_left set_infos-IsInformed)

  knows_all :
      (tables : List Text)
      → is_empty tables ≡ true
      → IsInformed query b (set_infos query tables b)
      → IsInformed query b b
  unfolding set_infos
  knows_all [] e h = h
  knows_all (x ∷ xs) e h = absurd (cc)

  -- `ensure_table_info` succeeds, and then the broker knows of each observed table what it knew, or
  -- else what the query answers, and of the others what it knew; or it fails and changes nothing.
  -- It fails only if the pool of readers does, and not if every observed table is known.
  pub ensure_table_info-Informs :
      (pool : Result ConnError (Unit {0})) (acquired : Result Text (Unit {0}))
      → Informs pool acquired
  unfolding ensure_table_info
  ensure_table_info-Informs pool acquired =
      elim (Bool-cases (is_empty (tables_to_query b b.observed_tables))) [
        | inl e ↦ inl (
          rw e refl,
          rw e (knows_all (tables_to_query b b.observed_tables) e set_infos-IsInformed),
        )
        | inr e ↦ asks pool acquired e
      ]
