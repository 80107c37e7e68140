-- ===== src/Migrations/Restoring.antt =====
-- Rollback after Migrate, and Migrate twice, backend/framework/migrations.go.
use bridra.Common.{
  ℕ, ◌+◌, ◌≡◌, refl, sym, ap, ◌∙◌, subst, Bool, true, false, not, Option, none, some, List, [], ◌∷◌,
  arith, All, map, keep_if,
}
use bridra.Common.Texts.{Text}
use bridra.Common.Entries.{All-map}
use bridra.Common.Ordering.{find_by, Distinct, find_by-All, sort_by, sort_by-All, Distinct-found}
use bridra.Migrations.Migration.{
  Migration, AppliedMigration, Runner, version_of, record_version, is_set, migration_snapshot,
}
use bridra.Migrations.Engine.{MigrationStore, Transactions, IsTransactional, IsHistory, LeavesRows}
use bridra.Migrations.Results.{Context, latest_batch}
use bridra.Migrations.Runner.{row_of, rollback, migrate, is_pending}
use bridra.Migrations.History.{row_at, changes, put}
use bridra.Migrations.Pending.{owed, planned}
use bridra.Migrations.Applying.{
  migrate_complete, migrate-IsRan, IsRan, stopped, finished, ran, migrate-changes,
}
use bridra.Migrations.Batches.{
  AtMost, latest_batch-AtMost, latest_batch-is, AtMost-weaken, AtMost-earlier,
}
use bridra.Migrations.Reverting.{rollback_complete, without_batch}

IsRan_nil :
    {A : Type 0} (complete : Bool) (xs ys : List A) → ys ≡ [] → IsRan complete xs ys → xs ≡ []
IsRan_nil complete _ _ e (stopped xs h) = refl
IsRan_nil complete _ _ e finished = refl
IsRan_nil complete _ _ e (ran x xs ys h) = absurd (ground (arith, e))

module _ {D Cause : Type 0} where
  -- What is owed belongs to the next batch at the latest.
  owed-AtMost :
      (n : ℕ) (definition : Option (Migration D Cause)) (base : Option AppliedMigration)
      (r : AppliedMigration)
      → ((x : AppliedMigration) → base ≡ some x → AtMost n x)
      → owed (n + 1) definition base ≡ some r
      → AtMost (n + 1) r
  unfolding owed AtMost
  owed-AtMost n definition (some x) r h e =
      AtMost-weaken n r (subst (AtMost n) {x = x} {y = r} (ground (arith, e)) (h x refl))
  owed-AtMost n none none r h e = absurd (ground (arith, e))
  owed-AtMost n (some m) none r h e =
      subst (AtMost (n + 1)) {x = row_of (n + 1) m} {y = r} (ground (arith, e)) (omega arith)

  -- Without the next batch, what is owed is what was there.
  without_batch-owed :
      (n : ℕ) (definition : Option (Migration D Cause)) (base : Option AppliedMigration)
      → ((x : AppliedMigration) → base ≡ some x → AtMost n x)
      → without_batch (n + 1) (owed (n + 1) definition base) ≡ base
  unfolding without_batch owed
  without_batch-owed n definition (some x) h = rw (AtMost-earlier n x (h x refl)) refl
  without_batch-owed n none none h = refl
  without_batch-owed n (some m) none h = ground arith

  none_pending :
      (batch : ℕ) (rows : List AppliedMigration) (ms : List (Migration D Cause))
      → All (λ m. is_pending rows m ≡ false) ms
      → map (row_of batch) (keep_if (is_pending rows) ms) ≡ []
  unfolding keep_if
  none_pending batch rows [] h = refl
  none_pending batch rows (m ∷ ms) h = rw (h.0, keep_if) (none_pending batch rows ms h.1)

  owed-is_set :
      (n : ℕ) (m : Migration D Cause) (base : Option AppliedMigration)
      → is_set (owed n (some m) base) ≡ true
  unfolding owed
  owed-is_set n m none = refl
  owed-is_set n m (some r) = refl

  module _ (sql : Transactions D Cause) (transactional : IsTransactional sql)
      (store : MigrationStore D Cause) (rows : D → List AppliedMigration)
      (laws : IsHistory store rows) (runner : Runner D Cause)
      (distinct : Distinct version_of runner.migrations)
      (ups : All (λ m. LeavesRows rows m.up) runner.migrations) where
    found-AtMost :
        (d : D) (v : Text) (x : AppliedMigration)
        → row_at v (rows d) ≡ some x
        → AtMost (latest_batch (rows d)) x
    found-AtMost d v x e =
        find_by-All record_version (AtMost (latest_batch (rows d))) v x (rows d)
          (latest_batch-AtMost (rows d)) e

    -- Where Migrate returns no error and a migration was pending, its batch is the latest.
    latest_batch-migrate :
        (context : Context Cause) (d : D) (w : Text) (m : Migration D Cause)
        → row_at w (rows d) ≡ none
        → find_by version_of w runner.migrations ≡ some m
        → (migrate sql store context runner d).error ≡ none
        → latest_batch (rows (migrate sql store context runner d).database)
          ≡ latest_batch (rows d) + 1
    unfolding owed
    latest_batch-migrate context d w m missing known h =
        let out = migrate sql store context runner d in
        let n = latest_batch (rows d) in
        let whole = migrate_complete sql store rows laws transactional context runner d in
        latest_batch-is (n + 1) (row_of (n + 1) m) w (rows out.database) (laws.keyed out.database)
          (λ k x e.
            owed-AtMost n (find_by version_of k runner.migrations) (row_at k (rows d)) x
              (found-AtMost d k) (sym (whole k distinct ups h) ∙ e))
          (whole w distinct ups h ∙ rw (known, missing) refl) refl

    -- Where the registered versions differ, each Up and each Down leaves the rows of the history as
    -- they are, Migrate returned no error and a migration was pending, a Rollback that returns no error
    -- gives each version the row that it had before.
    pub rollback-migrate :
        (context later : Context Cause) (d : D) (w v : Text) (m : Migration D Cause)
        → All (λ m. LeavesRows rows m.down) runner.migrations
        → row_at w (rows d) ≡ none
        → find_by version_of w runner.migrations ≡ some m
        → (migrate sql store context runner d).error ≡ none
        → (rollback sql store later runner (migrate sql store context runner d).database).error
          ≡ none
        → row_at v (
            rows
              (rollback sql store later runner
                (migrate sql store context runner d).database).database)
          ≡ row_at v (rows d)
    rollback-migrate context later d w v m downs missing known up down =
        let out = migrate sql store context runner d in
        rollback_complete rows sql transactional store laws later runner out.database v downs down
        ∙ ap (λ n. without_batch n (row_at v (rows out.database)))
            (latest_batch-migrate context d w m missing known up)
        ∙ ap (without_batch (latest_batch (rows d) + 1))
            (migrate_complete sql store rows laws transactional context runner d v distinct ups up)
        ∙ without_batch-owed (latest_batch (rows d)) (find_by version_of v runner.migrations)
            (row_at v (rows d)) (found-AtMost d v)

    none_left :
        (context : Context Cause) (d : D) (m : Migration D Cause)
        → (migrate sql store context runner d).error ≡ none
        → find_by version_of m.version runner.migrations ≡ some m
        → is_pending (rows (migrate sql store context runner d).database) m ≡ false
    none_left context d m h e =
        ap (λ o. not (is_set o))
          (migrate_complete sql store rows laws transactional context runner d m.version distinct
            ups h)
        ∙ ap (λ o. not (is_set (owed (latest_batch (rows d) + 1) o (row_at m.version (rows d))))) e
        ∙ ap not (owed-is_set (latest_batch (rows d) + 1) m (row_at m.version (rows d)))

    nothing_planned :
        (context : Context Cause) (d : D)
        → (migrate sql store context runner d).error ≡ none
        → planned runner (rows (migrate sql store context runner d).database) ≡ []
    unfolding planned migration_snapshot
    nothing_planned context d h =
        let db = (migrate sql store context runner d).database in
        none_pending (latest_batch (rows db) + 1) (rows db) (sort_by version_of runner.migrations) (
          sort_by-All version_of (λ m. is_pending (rows db) m ≡ false) runner.migrations
            (All-map (λ m e. none_left context d m h e) runner.migrations
              (Distinct-found version_of runner.migrations distinct)))

    -- After a Migrate without an error, Migrate records nothing and changes no row.
    pub migrate_again :
        (context later : Context Cause) (d : D) (v : Text)
        → (migrate sql store context runner d).error ≡ none
        → ((migrate sql store later runner
              (migrate sql store context runner d).database).result.rows
            ≡ [])
          × (row_at v (
                rows
                  (migrate sql store later runner
                    (migrate sql store context runner d).database).database)
              ≡ row_at v (rows (migrate sql store context runner d).database))
    unfolding changes
    migrate_again context later d v h =
        let db = (migrate sql store context runner d).database in
        let nothing =
          IsRan_nil _ _ _ (nothing_planned context d h)
            (migrate-IsRan sql store rows laws later runner db) in
        (
          nothing,
          migrate-changes sql store rows transactional laws later runner db v ups
              ∙ ap (λ l. changes put l v (row_at v (rows db))) nothing,
        )
