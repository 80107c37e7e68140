-- ===== src/Migrations/Applying.antt =====
-- What Migrate makes of the history, backend/framework/migrations.go.
use bridra.Common.{
  ℕ, ◌+◌, ℤ, pos, ◌≡◌, refl, ap, ◌∙◌, subst, inl, inr, Bool, true, false, not, Option, none, List,
  [], ◌∷◌, map, ◌==◌, arith, Bool-cases, Option-cases, All, keep_if,
}
use bridra.Common.Texts.{Text}
use bridra.Common.Ordering.{find_by, Distinct, find_by-sort_by, sort_by-All, sort_by-Distinct}
use bridra.Common.Entries.{keep_if-All}
use bridra.Migrations.Migration.{
  Migration, AppliedMigration, Direction, Runner, version_of, is_set, migration_snapshot,
}
use bridra.Migrations.Engine.{
  MigrationStore, Transactions, execute, IsTransactional, IsHistory, LeavesRows,
}
use bridra.Migrations.Results.{Context, Turn, latest_batch, max_int64}
use bridra.Migrations.Runner.{
  run_turns, row_of, up_turn, is_pending, run_pending, migrate_from, migrate,
}
use bridra.Migrations.History.{changes, put, row_at, IsTurn, apply_one-Makes, run_turns-changes}
use bridra.Migrations.Pending.{owed, put-pending, planned, planned-sort_by}
use bridra.Migrations.Loading.{with_history-rule}

-- Ran turns are the first of those that were to run, and all of them where nothing failed.
pub data IsRan {A : Type 0} (complete : Bool) : List A → List A → Type 0 where
  stopped : (xs : List A) → complete ≡ false → IsRan complete [] xs
  finished : IsRan complete [] []
  ran : (x : A) (xs ys : List A) → IsRan complete xs ys → IsRan complete (x ∷ xs) (x ∷ ys)

pub IsRan-all : {A : Type 0} (xs ys : List A) → IsRan true xs ys → xs ≡ ys
IsRan-all _ _ (stopped xs h) = absurd (ground (arith, h))
IsRan-all _ _ finished = refl
IsRan-all _ _ (ran x xs ys h) = ap (λ l. x ∷ l) (IsRan-all xs ys h)

abbrev pub is_done {ℓ} : {A : Type ℓ} → Option A → Bool
is_done o = not (is_set o)

abbrev pub turn_row : {D Cause : Type 0} → Turn D Cause → AppliedMigration
turn_row turn = turn.row

module _ {D Cause : Type 0} (sql : Transactions D Cause) where
  pub run_turns-IsRan :
      (direction : Direction) (batch : ℤ) (turns : List (Turn D Cause)) (d : D)
      → IsRan
          (is_done (run_turns sql direction batch turns d).error)
          (run_turns sql direction batch turns d).result.rows
          (map turn_row turns)
  unfolding run_turns
  run_turns-IsRan direction batch [] d = finished
  run_turns-IsRan direction batch (turn ∷ turns) d =
      let step = execute sql turn.disable_transaction turn.operation d in
      elim (Option-cases step.1) [
        | inl e ↦
            rw (e, run_turns) (ran turn.row _ _ (run_turns-IsRan direction batch turns step.0))
        | inr (failure, e) ↦ rw (e, run_turns) (stopped _ refl)
      ]

  module _ (store : MigrationStore D Cause) (rows : D → List AppliedMigration) where
    module _ (transactional : IsTransactional sql) (laws : IsHistory store rows) where
      up_turns-IsTurn :
          (batch : ℕ) (ms : List (Migration D Cause))
          → All (λ m. LeavesRows rows m.up) ms
          → All (IsTurn rows sql transactional put) (map (up_turn store batch) ms)
      unfolding up_turn
      up_turns-IsTurn batch [] h = tt
      up_turns-IsTurn batch (m ∷ ms) h =
          (apply_one-Makes rows store laws m.up (row_of batch m) h.0, up_turns-IsTurn batch ms h.1)

      module _ (batch : ℕ) (list : List AppliedMigration) where
        run_pending-changes :
            (turns : List (Turn D Cause)) (d : D) (v : Text)
            → All (IsTurn rows sql transactional put) turns
            → row_at v (rows (run_pending sql (pos batch) turns d).database)
              ≡ changes put (run_pending sql (pos batch) turns d).result.rows v (row_at v (rows d))
        unfolding run_pending changes
        run_pending-changes [] d v h = refl
        run_pending-changes (turn ∷ turns) d v h =
            run_turns-changes rows sql transactional put Direction.up (pos batch) (turn ∷ turns) d v
              h

      migrate_from-changes :
          (ms : List (Migration D Cause)) (list : List AppliedMigration) (d : D) (v : Text)
          → All (λ m. LeavesRows rows m.up) ms
          → row_at v (rows (migrate_from sql store ms list d).database)
            ≡ changes put (migrate_from sql store ms list d).result.rows v (row_at v (rows d))
      unfolding migrate_from changes
      migrate_from-changes ms list d v h = elim (Bool-cases (latest_batch list == max_int64)) [
        | inl e ↦ rw (e, migrate_from) refl
        | inr e ↦
            rw (e, migrate_from)
              (run_pending-changes (latest_batch list + 1) list _ d v (
                up_turns-IsTurn (latest_batch list + 1) (keep_if (is_pending list) ms)
                  (keep_if-All (λ m. LeavesRows rows m.up) (is_pending list) ms h)))
      ]

      refused-changes :
          (d d' : D) (v : Text)
          → rows d' ≡ rows d
          → row_at v (rows d') ≡ changes put [] v (row_at v (rows d))
      unfolding changes
      refused-changes d d' v same = ap (row_at v) same

      -- Where each Up leaves the rows of the history as they are, and the store and the transactions
      -- keep their laws (of which one is that a failed Commit changes nothing), Migrate leaves the
      -- history with the rows it returns recorded over it, in order, and changes no other row, whether
      -- it returns an error or none.
      pub migrate-changes :
          (context : Context Cause) (runner : Runner D Cause) (d : D) (v : Text)
          → All (λ m. LeavesRows rows m.up) runner.migrations
          → row_at v (rows (migrate sql store context runner d).database)
            ≡ changes put (migrate sql store context runner d).result.rows v (row_at v (rows d))
      unfolding migrate migration_snapshot
      migrate-changes context runner d v h =
          with_history-rule store rows laws
            (λ out.
              row_at v (rows out.database) ≡ changes put out.result.rows v (row_at v (rows d)))
            context runner d (migrate_from sql store) (λ e d' same. refused-changes d d' v same)
            (λ list d' same loaded.
              migrate_from-changes (migration_snapshot runner) list d' v
                (sort_by-All version_of (λ m. LeavesRows rows m.up) runner.migrations h)
              ∙ ap
                  (λ x.
                    changes put
                      (migrate_from sql store (migration_snapshot runner) list d').result.rows v
                      (row_at v x))
                  same)

    up_turns-rows :
        (batch : ℕ) (ms : List (Migration D Cause))
        → map turn_row (map (up_turn store batch) ms) ≡ map (row_of batch) ms
    unfolding up_turn
    up_turns-rows batch [] = refl
    up_turns-rows batch (m ∷ ms) = ap (λ l. row_of batch m ∷ l) (up_turns-rows batch ms)

    run_pending-IsRan :
        (batch : ℤ) (turns : List (Turn D Cause)) (d : D)
        → IsRan
            (is_done (run_pending sql batch turns d).error)
            (run_pending sql batch turns d).result.rows
            (map turn_row turns)
    unfolding run_pending
    run_pending-IsRan batch [] d = finished
    run_pending-IsRan batch (turn ∷ turns) d = run_turns-IsRan Direction.up batch (turn ∷ turns) d

    pub migrate_from-IsRan :
        (runner : Runner D Cause) (list : List AppliedMigration) (d : D)
        → IsRan
            (is_done (migrate_from sql store (migration_snapshot runner) list d).error)
            (migrate_from sql store (migration_snapshot runner) list d).result.rows
            (planned runner list)
    unfolding migrate_from planned
    migrate_from-IsRan runner list d = elim (Bool-cases (latest_batch list == max_int64)) [
      | inl e ↦ rw (e, migrate_from) (stopped _ refl)
      | inr e ↦
          let pending = keep_if (is_pending list) (migration_snapshot runner) in
          let batch = latest_batch list + 1 in
          rw (e, migrate_from)
            (subst
              (IsRan
                (is_done (run_pending sql (pos batch) (map (up_turn store batch) pending) d).error)
                (run_pending sql (pos batch) (map (up_turn store batch) pending) d).result.rows)
              (up_turns-rows batch pending)
              (run_pending-IsRan (pos batch) (map (up_turn store batch) pending) d))
    ]

    module _ (laws : IsHistory store rows) where
      -- Migrate records the planned rows in their order, and stops before the end only with an error.
      pub migrate-IsRan :
          (context : Context Cause) (runner : Runner D Cause) (d : D)
          → IsRan
              (is_done (migrate sql store context runner d).error)
              (migrate sql store context runner d).result.rows
              (planned runner (rows d))
      unfolding migrate
      migrate-IsRan context runner d =
          with_history-rule store rows laws
            (λ out. IsRan (is_done out.error) out.result.rows (planned runner (rows d))) context
            runner d (migrate_from sql store) (λ e d' same. stopped _ refl)
            (λ list d' same loaded.
              subst
                (IsRan (is_done (migrate_from sql store (migration_snapshot runner) list d').error)
                  (migrate_from sql store (migration_snapshot runner) list d').result.rows)
                (ap (planned runner) loaded.sorted ∙ planned-sort_by runner (rows d))
                (migrate_from-IsRan runner list d'))

      -- Where the registered versions differ, each Up leaves the rows of the history as they are and
      -- Migrate returns no error, each version has the row it had before, or else, if a migration is
      -- registered for it, a row with its name and the next batch.
      pub migrate_complete :
          (transactional : IsTransactional sql) (context : Context Cause) (runner : Runner D Cause)
          (d : D) (v : Text)
          → Distinct version_of runner.migrations
          → All (λ m. LeavesRows rows m.up) runner.migrations
          → (migrate sql store context runner d).error ≡ none
          → row_at v (rows (migrate sql store context runner d).database)
            ≡ owed
                (latest_batch (rows d) + 1)
                (find_by version_of v runner.migrations)
                (row_at v (rows d))
      unfolding planned migration_snapshot
      migrate_complete transactional context runner d v distinct leaves h =
          let done = migrate-IsRan context runner d in
          let all_ran = IsRan-all _ _ (
            subst
              (λ e.
                IsRan (is_done e) (migrate sql store context runner d).result.rows
                  (planned runner (rows d)))
              h done) in
          migrate-changes transactional laws context runner d v leaves
          ∙ ap (λ l. changes put l v (row_at v (rows d))) all_ran
          ∙ put-pending (latest_batch (rows d) + 1) v (rows d) (migration_snapshot runner)
              (sort_by-Distinct version_of runner.migrations distinct)
          ∙ ap (λ o. owed (latest_batch (rows d) + 1) o (row_at v (rows d)))
              (find_by-sort_by version_of v runner.migrations)
