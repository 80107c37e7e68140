-- ===== src/Migrations/Bounds.antt =====
-- Batches stay in an int64, backend/framework/migrations.go.
use bridra.Common.{
  ℕ, ◌+◌, ◌≤◌, sym, ap, ◌∙◌, subst, inl, inr, List, [], ◌∷◌, ◌==◌, arith, Bool-cases, All, map,
  keep_if,
}
use bridra.Common.Ordering.{find_by-All, Distinct-All}
use bridra.Migrations.Migration.{
  Migration, AppliedMigration, Runner, record_version, migration_snapshot,
}
use bridra.Migrations.Engine.{MigrationStore, Transactions, IsTransactional, IsHistory, LeavesRows}
use bridra.Migrations.Results.{Context, latest_batch, max_int64}
use bridra.Migrations.Runner.{row_of, is_pending, migrate, migrate_from}
use bridra.Migrations.History.{row_at}
use bridra.Migrations.Pending.{planned, latest_batch-sort_by}
use bridra.Migrations.Loading.{with_history-rule}
use bridra.Migrations.Applying.{migrate-changes, migrate_from-IsRan}
use bridra.Migrations.Accepting.{put-All, IsRan-All}
use bridra.Migrations.Batches.{AtMost, latest_batch-bound}

module _ {D Cause : Type 0} where
  rows_of-AtMost :
      (n m : ℕ) (ms : List (Migration D Cause)) → n ≤ m → All (AtMost m) (map (row_of n) ms)
  unfolding AtMost
  rows_of-AtMost n m [] h = tt
  rows_of-AtMost n m (x ∷ ms) h = (h, rows_of-AtMost n m ms h)

  module _ (sql : Transactions D Cause) (transactional : IsTransactional sql)
      (store : MigrationStore D Cause) (rows : D → List AppliedMigration)
      (laws : IsHistory store rows) where
    migrate_from-AtMost :
        (runner : Runner D Cause) (list : List AppliedMigration) (d : D)
        → latest_batch list ≤ max_int64
        → All
            (AtMost max_int64)
            (migrate_from sql store (migration_snapshot runner) list d).result.rows
    unfolding migrate_from planned
    migrate_from-AtMost runner list d h = elim (Bool-cases (latest_batch list == max_int64)) [
      | inl e ↦ rw (e, migrate_from) tt
      | inr e ↦
          IsRan-All (AtMost max_int64) _ _ _ (migrate_from-IsRan sql store rows runner list d) (
            rows_of-AtMost (latest_batch list + 1) max_int64
              (keep_if (is_pending list) (migration_snapshot runner)) (ground (arith, e, h)))
    ]

    migrate-AtMost :
        (context : Context Cause) (runner : Runner D Cause) (d : D)
        → All (AtMost max_int64) (rows d)
        → All (AtMost max_int64) (migrate sql store context runner d).result.rows
    unfolding migrate
    migrate-AtMost context runner d h =
        with_history-rule store rows laws (λ out. All (AtMost max_int64) out.result.rows) context
          runner d (migrate_from sql store) (λ e d' same. tt)
          (λ list d' same loaded. migrate_from-AtMost runner list d' (
            subst (λ n. n ≤ max_int64)
              (sym (ap latest_batch loaded.sorted ∙ latest_batch-sort_by (rows d)))
              (latest_batch-bound max_int64 (rows d) h)))

    -- Where each Up leaves the rows of the history as they are and the batches of the history are no
    -- larger than math.MaxInt64, those of the history that Migrate leaves are not either, however it
    -- ends.
    pub migrate-AtMost_max :
        (context : Context Cause) (runner : Runner D Cause) (d : D)
        → All (λ m. LeavesRows rows m.up) runner.migrations
        → All (AtMost max_int64) (rows d)
        → All (AtMost max_int64) (rows (migrate sql store context runner d).database)
    migrate-AtMost_max context runner d leaves h =
        let out = migrate sql store context runner d in
        Distinct-All record_version (AtMost max_int64) (rows out.database) (laws.keyed out.database)
          (λ v r e.
            put-All (AtMost max_int64) out.result.rows v (row_at v (rows d)) r
              (migrate-AtMost context runner d h)
              (λ x f. find_by-All record_version (AtMost max_int64) v x (rows d) h f)
              (sym (migrate-changes sql store rows transactional laws context runner d v leaves)
                ∙ e))
