-- ===== src/Migrations/Accepting.antt =====
-- The history that Migrate leaves is one that loadApplied accepts, backend/framework/migrations.go.
use bridra.Common.{
  ℕ, ◌+◌, ◌≡◌, refl, sym, ◌∙◌, subst, inl, inr, Bool, Option, none, some, List, [], ◌∷◌, map, arith,
  Bool-cases, All, keep_if,
}
use bridra.Common.Texts.{Text, same_text, same_text_refl}
use bridra.Common.Ordering.{
  find_by, sort_by, sort_by-All, sort_by-Distinct, Distinct-found, Distinct-All, find_by-All,
}
use bridra.Common.Entries.{keep_if-All}
use bridra.Migrations.Migration.{
  Migration, AppliedMigration, Runner, version_of, record_version, migration_snapshot,
}
use bridra.Migrations.Engine.{MigrationStore, Transactions, IsTransactional, IsHistory, LeavesRows}
use bridra.Migrations.Results.{Context, latest_batch}
use bridra.Migrations.Runner.{row_of, is_pending, migrate, check_history, check_definition}
use bridra.Migrations.History.{changes, put, row_at}
use bridra.Migrations.Pending.{planned}
use bridra.Migrations.Registry.{IsRegistry, IsRegistered}
use bridra.Migrations.Loading.{IsKnown, check_history-IsKnown, check_history-none}
use bridra.Migrations.Applying.{IsRan, stopped, finished, ran, migrate-IsRan, migrate-changes}

pub put-All :
    (P : AppliedMigration → Type 0) (list : List AppliedMigration) (v : Text)
    (base : Option AppliedMigration) (r : AppliedMigration)
    → All P list
    → ((x : AppliedMigration) → base ≡ some x → P x)
    → changes put list v base ≡ some r
    → P r
unfolding changes
put-All P [] v base r h k e = k r e
put-All P (x ∷ xs) v base r h k e = elim (Bool-cases (same_text x.version v)) [
  | inl hit ↦ put-All P xs v (put x v base) r h.1 (λ y f. subst P (ground (arith, hit, f)) h.0) e
  | inr miss ↦ put-All P xs v (put x v base) r h.1 (λ y f. k y (ground (arith, miss, f))) e
]

pub IsRan-All :
    (P : AppliedMigration → Type 0) (complete : Bool) (xs ys : List AppliedMigration)
    → IsRan complete xs ys
    → All P ys
    → All P xs
IsRan-All P complete _ _ (stopped xs h) k = tt
IsRan-All P complete _ _ finished k = tt
IsRan-All P complete _ _ (ran x xs ys h) k = (k.0, IsRan-All P complete xs ys h k.1)

module _ {D Cause : Type 0} where
  row_of-IsKnown :
      (definitions : List (Migration D Cause)) (batch : ℕ) (m : Migration D Cause)
      → IsRegistered m
      → find_by version_of m.version definitions ≡ some m
      → IsKnown definitions (row_of (batch + 1) m)
  unfolding check_definition
  row_of-IsKnown definitions batch m valid found = record {
    formed = ground (arith, valid.version_label.filled, valid.name_label.filled);
    defined = rw (found, check_definition, same_text_refl m.name) refl;
  }

  rows_of-IsKnown :
      (definitions ms : List (Migration D Cause)) (batch : ℕ)
      → All IsRegistered ms
      → All (λ m. find_by version_of m.version definitions ≡ some m) ms
      → All (IsKnown definitions) (map (row_of (batch + 1)) ms)
  rows_of-IsKnown definitions [] batch valid found = tt
  rows_of-IsKnown definitions (m ∷ ms) batch valid found = (
    row_of-IsKnown definitions batch m valid.0 found.0,
    rows_of-IsKnown definitions ms batch valid.1 found.1,
  )

  planned-IsKnown :
      (runner : Runner D Cause) (list : List AppliedMigration)
      → IsRegistry runner.migrations
      → All (IsKnown (migration_snapshot runner)) (planned runner list)
  unfolding planned migration_snapshot
  planned-IsKnown runner list registry =
      let snapshot = sort_by version_of runner.migrations in
      rows_of-IsKnown snapshot (keep_if (is_pending list) snapshot) (latest_batch list)
        (keep_if-All IsRegistered (is_pending list) snapshot
          (sort_by-All version_of IsRegistered runner.migrations registry.valid))
        (keep_if-All (λ m. find_by version_of m.version snapshot ≡ some m) (is_pending list)
          snapshot
          (Distinct-found version_of snapshot
            (sort_by-Distinct version_of runner.migrations registry.distinct)))

  module _ (sql : Transactions D Cause) (transactional : IsTransactional sql)
      (store : MigrationStore D Cause) (rows : D → List AppliedMigration)
      (laws : IsHistory store rows) where
    -- A history that loadApplied accepts is accepted after any run of Migrate too, whether it
    -- finishes or stops with an error.
    pub migrate-accepted :
        (context : Context Cause) (runner : Runner D Cause) (d : D)
        → IsRegistry runner.migrations
        → All (λ m. LeavesRows rows m.up) runner.migrations
        → check_history (migration_snapshot runner) [] (rows d) ≡ none
        → check_history
            (migration_snapshot runner)
            []
            (rows (migrate sql store context runner d).database)
          ≡ none
    migrate-accepted context runner d registry leaves accepted =
        let out = migrate sql store context runner d in
        let definitions = migration_snapshot runner in
        let old = check_history-IsKnown definitions [] (rows d) accepted in
        let new =
          IsRan-All (IsKnown definitions) _ _ _ (migrate-IsRan sql store rows laws context runner d)
            (planned-IsKnown runner (rows d) registry) in
        check_history-none definitions (rows out.database)
          (Distinct-All record_version (IsKnown definitions) (rows out.database)
            (laws.keyed out.database)
            (λ v r e.
              put-All (IsKnown definitions) out.result.rows v (row_at v (rows d)) r new
                (λ x f. find_by-All record_version (IsKnown definitions) v x (rows d) old f)
                (sym (migrate-changes sql store rows transactional laws context runner d v leaves)
                  ∙ e)))
          (laws.keyed out.database)
