-- ===== src/Toolkit/Execution/Atomic.antt =====
-- A transaction that is executed at once changes all or nothing.
use tauri_plugin_sqlite.Prelude.{
  Bool, true, List, [], ◌∷◌, Text, codes, Result, ok, err, ◌>>=◌, ◌≡◌, ◌⊎◌, refl, ◌∙◌, ap, sym, inl,
  inr, All, Result-cases, subst,
}
use tauri_plugin_sqlite.Toolkit.{Error}
use tauri_plugin_sqlite.Toolkit.Transactions.{TransactionWriter, Statement, execute_all}
use tauri_plugin_sqlite.Toolkit.Execution.{begin_immediate, commit_or_rollback, execute_transaction}

-- SQLite's documentation of transactions. A connection has the content that is committed, and, in a
-- transaction, the content with the changes made so far. BEGIN opens a transaction with the committed
-- content. A plain statement, one that does not control transactions, commits nothing in a
-- transaction, and leaves it open if it succeeds. COMMIT commits the changes, or fails and commits
-- nothing, and ROLLBACK commits nothing.
pub record Transactional {W V R : Type 0} (sql : TransactionWriter W V R) (D : Type 0)
    : Type 1 where
  pub committed : W → D
  pub pending : W → D
  pub in_transaction : W → Bool
  pub Plain : Text → Type 0
  pub begin_opens :
      (w : W) (r : R)
      → (begin_immediate sql w).0 ≡ ok r
      → (in_transaction (begin_immediate sql w).1 ≡ true)
        × (committed (begin_immediate sql w).1 ≡ committed w)
        × (pending (begin_immediate sql w).1 ≡ committed w)
  pub begin_fails :
      (w : W) (e : Error)
      → (begin_immediate sql w).0 ≡ err e
      → committed (begin_immediate sql w).1 ≡ committed w
  pub plain_keeps :
      (w : W) (q : Text) (vs : List V)
      → Plain q
      → in_transaction w ≡ true
      → committed (sql.execute_query w q vs).1 ≡ committed w
  pub plain_stays :
      (w : W) (q : Text) (vs : List V) (r : R)
      → Plain q
      → in_transaction w ≡ true
      → (sql.execute_query w q vs).0 ≡ ok r
      → in_transaction (sql.execute_query w q vs).1 ≡ true
  pub commit_commits :
      (w : W) (r : R)
      → in_transaction w ≡ true
      → (sql.execute_query w (codes "COMMIT") []).0 ≡ ok r
      → committed (sql.execute_query w (codes "COMMIT") []).1 ≡ pending w
  pub commit_fails :
      (w : W) (e : Error)
      → (sql.execute_query w (codes "COMMIT") []).0 ≡ err e
      → committed (sql.execute_query w (codes "COMMIT") []).1 ≡ committed w
  pub rollback_keeps :
      (w : W) → committed (sql.execute_query w (codes "ROLLBACK") []).1 ≡ committed w

module _ {W V R D : Type 0} (sql : TransactionWriter W V R) (sqlite : Transactional sql D) where
  abbrev AllPlain : List (Statement V) → Type 0
  AllPlain statements = All (λ s. sqlite.Plain s.query) statements

  -- The statements commit nothing, and leave the transaction open if they all succeed.
  execute_all-keeps :
      (w : W) (statements : List (Statement V))
      → AllPlain statements
      → sqlite.in_transaction w ≡ true
      → let ran = execute_all sql w statements in
        (sqlite.committed ran.1 ≡ sqlite.committed w)
        × (((e : Error) × (ran.0 ≡ err e))
            ⊎ ((rs : List R) × (ran.0 ≡ ok rs) × (sqlite.in_transaction ran.1 ≡ true)))
  unfolding execute_all
  execute_all-keeps w [] p t = (refl, inr ([], refl, t))
  execute_all-keeps w (s ∷ statements) p t =
      let done = sql.execute_query w s.query s.values in
      let keeps = sqlite.plain_keeps w s.query s.values p.0 t in
      elim (Result-cases done.0) [
        | inr (e, d) ↦ rw (execute_all, d) (keeps, inl (e, refl))
        | inl (r, d) ↦
            let (same, way) =
              execute_all-keeps done.1 statements p.1
                (sqlite.plain_stays w s.query s.values r p.0 t d) in
            elim way [
              | inl (e, f) ↦
                  rw (execute_all, d)
                    (same ∙ keeps, inl (e, ap (λ x. x >>= λ results. ok (r ∷ results)) f))
              | inr (rs, f, o) ↦
                  rw (execute_all, d)
                    (same ∙ keeps, inr (r ∷ rs, ap (λ x. x >>= λ results. ok (r ∷ results)) f, o))
            ]
      ]

  -- What the outcome says of the content: nothing is committed and there is an error, or all
  -- statements succeeded, their changes are committed, and the result is theirs, unless detaching
  -- fails.
  abbrev pub AllOrNothing : W → List (Statement V) → Result Error (List R) × List W → Type 0
  AllOrNothing w statements out =
      (w' : W) × (out.1 ≡ w' ∷ [])
      × (((e : Error) × (out.0 ≡ err e) × (sqlite.committed w' ≡ sqlite.committed w))
          ⊎ ((results : List R) × let ran = execute_all sql (begin_immediate sql w).1 statements in
                (ran.0 ≡ ok results)
                × (sqlite.committed w' ≡ sqlite.pending ran.1)
                × (out.0 ≡ (sql.detach_if_attached w' >>= λ _. ok results))))

  finish :
      (w : W) (statements : List (Statement V))
      → let ran = execute_all sql (begin_immediate sql w).1 statements in
        (sqlite.committed ran.1 ≡ sqlite.committed w)
        → ((e : Error) × (ran.0 ≡ err e))
          ⊎ ((rs : List R) × (ran.0 ≡ ok rs) × (sqlite.in_transaction ran.1 ≡ true))
        → AllOrNothing w statements (commit_or_rollback sql ran)
  unfolding commit_or_rollback
  finish w statements kept way =
      let ran = execute_all sql (begin_immediate sql w).1 statements in
      let Goal = AllOrNothing w statements in
      elim way [
        | inl (e, f) ↦
            let done = sql.execute_query ran.1 (codes "ROLLBACK") [] in
            let undone = sqlite.rollback_keeps ran.1 ∙ kept in
            elim (Result-cases done.0) [
              | inr (m, d) ↦
                  let is : commit_or_rollback sql ran ≡ (err m, done.1 ∷ []) =
                    rw (commit_or_rollback, f) (rw d refl) in
                  subst Goal (sym is) (done.1, refl, inl (m, refl, undone))
              | inl (u, d) ↦
                  let is : commit_or_rollback sql ran ≡ (err e, done.1 ∷ []) =
                    rw (commit_or_rollback, f) (rw d refl) in
                  subst Goal (sym is) (done.1, refl, inl (e, refl, undone))
            ]
        | inr (rs, f, opens) ↦
            let done = sql.execute_query ran.1 (codes "COMMIT") [] in
            elim (Result-cases done.0) [
              | inr (m, d) ↦
                  let is : commit_or_rollback sql ran ≡ (err m, done.1 ∷ []) =
                    rw (commit_or_rollback, f) (rw d refl) in
                  subst Goal (sym is)
                    (done.1, refl, inl (m, refl, sqlite.commit_fails ran.1 m d ∙ kept))
              | inl (u, d) ↦
                  let is : commit_or_rollback sql ran
                      ≡ (sql.detach_if_attached done.1 >>= λ _. ok rs, done.1 ∷ []) =
                    rw (commit_or_rollback, f) (rw d refl) in
                  subst Goal (sym is)
                    (done.1, refl, inr (rs, (f, sqlite.commit_commits ran.1 u opens d, refl)))
            ]
      ]

  -- A transaction of plain statements changes all or nothing. With a writer that was acquired, the
  -- call drops exactly this writer: either it answers with an error and the committed content is as
  -- before, also if a statement, COMMIT or ROLLBACK fails; or every statement succeeded and the
  -- committed content has all their changes. In the second case the answer is the results, or the
  -- error of detaching the attached databases.
  pub execute_transaction-AllOrNothing :
      (w : W) (statements : List (Statement V))
      → AllPlain statements
      → AllOrNothing w statements (execute_transaction sql (ok w) statements)
  unfolding execute_transaction
  execute_transaction-AllOrNothing w statements p =
      let begun = begin_immediate sql w in
      elim (Result-cases begun.0) [
        | inr (e, b) ↦
            let is : execute_transaction sql (ok w) statements ≡ (err e, begun.1 ∷ []) =
              rw (execute_transaction, b) refl in
            subst (AllOrNothing w statements) (sym is)
              (begun.1, refl, inl (e, refl, sqlite.begin_fails w e b))
        | inl (r, b) ↦
            let (opens, same, starts) = sqlite.begin_opens w r b in
            let ran = execute_all sql begun.1 statements in
            let (kept, way) = execute_all-keeps begun.1 statements p opens in
            let is : execute_transaction sql (ok w) statements ≡ commit_or_rollback sql ran =
              rw (execute_transaction, b) refl in
            subst (AllOrNothing w statements) (sym is) (finish w statements (kept ∙ same) way)
      ]
