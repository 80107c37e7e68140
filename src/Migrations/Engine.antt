-- ===== src/Migrations/Engine.antt =====
-- What a MigrationRunner stands on, backend/framework/migrations.go and
-- backend/framework/database.go: the MigrationStore interface, transactions of database/sql, and
-- Database.WithinTransaction.
use bridra.Common.{◌≡◌, Bool, Option, none, some, List, Result, ok, if◌then◌else◌}
use bridra.Common.Texts.{Text, same_text}
use bridra.Common.Ordering.{find_by, Distinct}
use bridra.Migrations.Migration.{
  returned, failed, panicked, Callback, AppliedMigration, Error, store_failed, record_applied,
  remove, callback_failed, callback_panicked, nil_callback, begin_failed, commit_failed,
  rollback_failed, record_version,
}

-- MigrationStore; an operation that fails says what it left of the database too.
pub record MigrationStore (D Cause : Type 0) : Type 0 where
  pub ensure : D → D × Option Cause
  pub applied : D → Result Cause (List AppliedMigration)
  pub record_row : AppliedMigration → D → D × Option Cause
  pub remove_row : Text → D → D × Option Cause

-- Transactions of database/sql: Commit and Rollback have the database of before the transaction and
-- the one inside it.
pub record Transactions (D Cause : Type 0) : Type 0 where
  pub begin : D → Option Cause
  pub commit : D → D → D × Option Cause
  pub rollback : D → D → D × Option Cause

-- What a callback or an operation on the database gives.
abbrev pub Step : Type 0 → Type 0 → Type 0
Step D Cause = D × Option (Error Cause)

module _ {D Cause : Type 0} where
  -- invokeMigration
  unfoldable pub invoke_migration : Option (Callback D Cause) → D → Step D Cause
  invoke_migration none d = (d, some nil_callback)
  invoke_migration (some callback) d = elim (callback d) [
    | returned d' ↦ (d', none)
    | failed d' cause ↦ (d', some (callback_failed cause))
    | panicked d' cause ↦ (d', some (callback_panicked cause))
  ]

  -- `if err := …; err != nil { return err }`
  unfoldable pub and_then : Step D Cause → (D → Step D Cause) → Step D Cause
  and_then step next = let (d, e) = step in elim e [ some e ↦ (d, some e) | none ↦ next d ]

  -- An operation of a store or of database/sql, with its error wrapped.
  unfoldable pub wrap : (Cause → Error Cause) → D × Option Cause → Step D Cause
  wrap as_error step =
      let (d, e) = step in elim e [ some cause ↦ (d, some (as_error cause)) | none ↦ (d, none) ]

  -- The error of a callback, and that of the Rollback after it.
  unfoldable pub roll_back : Error Cause → D × Option Cause → Step D Cause
  roll_back e step =
      let (d, failure) = step in
      elim failure [ some cause ↦ (d, some (rollback_failed e cause)) | none ↦ (d, some e) ]

  -- The end of a transaction: Commit, or Rollback where the callback returned an error
  unfoldable pub finish : Transactions D Cause → D → Step D Cause → Step D Cause
  finish sql d step =
      let (inside, e) = step in
      elim e [
        | some e ↦ roll_back e (sql.rollback d inside)
        | none ↦ wrap commit_failed (sql.commit d inside)
      ]

  -- WithinTransaction, where no transaction is active and the callback does not panic
  unfoldable pub within_transaction : Transactions D Cause → (D → Step D Cause) → D → Step D Cause
  within_transaction sql operation d = elim (sql.begin d) [
    | some cause ↦ (d, some (begin_failed cause))
    | none ↦ finish sql d (operation d)
  ]

  -- execute
  unfoldable pub execute : Transactions D Cause → Bool → (D → Step D Cause) → D → Step D Cause
  execute sql disable_transaction operation d =
      let inside = within_transaction sql operation d in
      if disable_transaction then operation d else inside

  -- The operations that Migrate and Rollback execute for one migration.
  unfoldable pub apply_one :
      MigrationStore D Cause → Option (Callback D Cause) → AppliedMigration → D → Step D Cause
  apply_one store callback row d =
      and_then (invoke_migration callback d)
        (λ d'. wrap (store_failed record_applied) (store.record_row row d'))

  unfoldable pub revert_one :
      MigrationStore D Cause → Option (Callback D Cause) → AppliedMigration → D → Step D Cause
  revert_one store callback row d =
      and_then (invoke_migration callback d)
        (λ d'. wrap (store_failed remove) (store.remove_row row.version d'))

-- What the runner relies on of transactions: a failed Commit and every Rollback leave the database
-- of before, a Commit that succeeds the one inside.
pub record IsTransactional {D Cause : Type 0} (sql : Transactions D Cause) : Type 0 where
  pub committed : (d inside d' : D) → sql.commit d inside ≡ (d', none) → d' ≡ inside
  pub not_committed :
      (d inside d' : D) (cause : Cause) → sql.commit d inside ≡ (d', some cause) → d' ≡ d
  pub rolled_back : (d inside : D) → (sql.rollback d inside).0 ≡ d

-- What a store of single SQL statements keeps: `rows` are those of the table of the history.
pub record IsHistory {D Cause : Type 0} (store : MigrationStore D Cause)
    (rows : D → List AppliedMigration) : Type 0 where
  pub keyed : (d : D) → Distinct record_version (rows d)
  pub ensured : (d : D) → rows (store.ensure d).0 ≡ rows d
  pub listed : (d : D) (list : List AppliedMigration) → store.applied d ≡ ok list → list ≡ rows d
  pub recorded :
      (d d' : D) (row : AppliedMigration) (v : Text)
      → store.record_row row d ≡ (d', none)
      → find_by record_version v (rows d')
        ≡ (if same_text row.version v then some row else find_by record_version v (rows d))
  pub not_recorded :
      (d d' : D) (row : AppliedMigration) (cause : Cause)
      → store.record_row row d ≡ (d', some cause)
      → rows d' ≡ rows d
  pub removed :
      (d d' : D) (version v : Text)
      → store.remove_row version d ≡ (d', none)
      → find_by record_version v (rows d')
        ≡ (if same_text version v then none else find_by record_version v (rows d))
  pub not_removed :
      (d d' : D) (version : Text) (cause : Cause)
      → store.remove_row version d ≡ (d', some cause)
      → rows d' ≡ rows d

-- A callback that leaves the table of the history as it is, however it ends.
abbrev pub LeavesRows :
    {D Cause : Type 0} → (D → List AppliedMigration) → Option (Callback D Cause) → Type 0
LeavesRows {D} rows callback = (d : D) → rows (invoke_migration callback d).0 ≡ rows d
