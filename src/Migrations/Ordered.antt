-- ===== src/Migrations/Ordered.antt =====
-- The order in which Migrate runs migrations, backend/framework/migrations.go.
use bridra.Common.{ℕ, ◌+◌, ◌≡◌, inl, inr, Bool, false, List, [], ◌∷◌, Bool-cases, map, keep_if}
use bridra.Common.Texts.{Text, before, not-before_trans}
use bridra.Common.Ordering.{FollowsIn, sort_by-FollowsIn}
use bridra.Migrations.Migration.{
  Migration, AppliedMigration, Runner, version_of, record_version, migration_snapshot,
}
use bridra.Migrations.Engine.{MigrationStore, Transactions, IsHistory}
use bridra.Migrations.Results.{Context, latest_batch}
use bridra.Migrations.Runner.{row_of, is_pending, migrate}
use bridra.Migrations.Pending.{planned}
use bridra.Migrations.Applying.{IsRan, stopped, finished, ran, migrate-IsRan}

module _ {A : Type 0} (key : A → Text) where
  FollowsIn-earlier :
      (j k : Text) (xs : List A) → before k j ≡ false → FollowsIn key k xs → FollowsIn key j xs
  FollowsIn-earlier j k [] h f = tt
  FollowsIn-earlier j k (x ∷ xs) h f = (not-before_trans (key x) k j f.0 h, f.1)

  keep_if-FollowsIn :
      (p : A → Bool) (k : Text) (xs : List A) → FollowsIn key k xs → FollowsIn key k (keep_if p xs)
  unfolding keep_if
  keep_if-FollowsIn p k [] f = tt
  keep_if-FollowsIn p k (x ∷ xs) f =
      let rest = keep_if-FollowsIn p (key x) xs f.1 in
      elim (Bool-cases (p x)) [
        | inl e ↦ rw (e, keep_if) (f.0, rest)
        | inr e ↦ rw (e, keep_if) (FollowsIn-earlier k (key x) (keep_if p xs) f.0 rest)
      ]

IsRan-FollowsIn :
    (complete : Bool) (k : Text) (xs ys : List AppliedMigration)
    → IsRan complete xs ys
    → FollowsIn record_version k ys
    → FollowsIn record_version k xs
IsRan-FollowsIn complete k _ _ (stopped xs h) f = tt
IsRan-FollowsIn complete k _ _ finished f = tt
IsRan-FollowsIn complete k _ _ (ran x xs ys h) f =
    (f.0, IsRan-FollowsIn complete (record_version x) xs ys h f.1)

module _ {D Cause : Type 0} where
  rows_of-FollowsIn :
      (n : ℕ) (k : Text) (ms : List (Migration D Cause))
      → FollowsIn version_of k ms
      → FollowsIn record_version k (map (row_of n) ms)
  rows_of-FollowsIn n k [] f = tt
  rows_of-FollowsIn n k (m ∷ ms) f = (f.0, rows_of-FollowsIn n m.version ms f.1)

  planned-FollowsIn :
      (runner : Runner D Cause) (list : List AppliedMigration)
      → FollowsIn record_version [] (planned runner list)
  unfolding planned migration_snapshot
  planned-FollowsIn runner list = rows_of-FollowsIn (latest_batch list + 1) [] _ (
      keep_if-FollowsIn version_of (is_pending list) [] _
        (sort_by-FollowsIn version_of runner.migrations))

  -- The rows that Migrate records, and so its migrations run, in ascending order of their versions,
  -- whatever the order in which they were registered.
  pub migrate_ascending :
      (sql : Transactions D Cause) (store : MigrationStore D Cause)
      (rows : D → List AppliedMigration)
      → IsHistory store rows
      → (context : Context Cause) (runner : Runner D Cause) (d : D)
      → FollowsIn record_version [] (migrate sql store context runner d).result.rows
  migrate_ascending sql store rows laws context runner d =
      IsRan-FollowsIn _ [] _ _ (migrate-IsRan sql store rows laws context runner d)
        (planned-FollowsIn runner (rows d))
