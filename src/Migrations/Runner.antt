-- ===== src/Migrations/Runner.antt =====
-- Status, Migrate and Rollback of backend/framework/migrations.go.
use bridra.Common.{
  ℕ, ◌+◌, ℤ, pos, Bool, true, false, not, Option, none, some, List, [], ◌∷◌, ◌++◌, ◌==◌,
  if◌then◌else◌, Result, ok, err, keep_if, map,
}
use bridra.Common.Texts.{same_text}
use bridra.Common.Ordering.{find_by, sort_by}
use bridra.Migrations.Migration.{
  Migration, AppliedMigration, Direction, Error, store_failed, ensure, list_applied,
  malformed_history, batch_overflow, duplicate_version, definition_missing, down_unavailable,
  name_mismatch, migration_failure, version_of, record_version, is_set, Callback, Runner,
  migration_snapshot,
}
use bridra.Migrations.Engine.{MigrationStore, Transactions, execute, apply_one, revert_one}
use bridra.Migrations.Results.{
  Context, MigrationStatus, no_result, latest_batch, is_batch, max_int64, validate_context,
  is_malformed, Turn, Outcome, reverse_onto,
}

module _ {D Cause : Type 0} where
  unfoldable pub check_definition :
      AppliedMigration → Option (Migration D Cause) → Option (Error Cause)
  check_definition r none = some (definition_missing r.version)
  check_definition r (some m) =
      if not (same_text m.name r.name) then some (name_mismatch r.version r.name m.name) else none

  -- The loop of loadApplied: the rows it has seen, and those still to be checked.
  unfoldable pub check_history :
      List (Migration D Cause)
      → List AppliedMigration
      → List AppliedMigration
      → Option (Error Cause)
  check_history definitions seen [] = none
  check_history definitions seen (r ∷ rs) =
      let rest = check_history definitions (r ∷ seen) rs in
      if is_malformed r
      then some malformed_history
      else if is_set (find_by record_version r.version seen)
      then some (duplicate_version r.version)
      else elim (check_definition r (find_by version_of r.version definitions)) [
        | some e ↦ some e
        | none ↦ rest
      ]

  -- loadApplied, from the rows that the store lists
  unfoldable pub check_applied :
      List (Migration D Cause)
      → Result Cause (List AppliedMigration)
      → Result (Error Cause) (List AppliedMigration)
  check_applied migrations (err cause) = err (store_failed list_applied cause)
  check_applied migrations (ok rows) = elim (check_history migrations [] rows) [
    | some e ↦ err e
    | none ↦ ok (sort_by record_version rows)
  ]

  -- loadApplied
  unfoldable pub load_applied :
      MigrationStore D Cause
      → List (Migration D Cause)
      → D
      → D × Result (Error Cause) (List AppliedMigration)
  load_applied store migrations d =
      let (d', e) = store.ensure d in
      elim e [
        | some cause ↦ (d', err (store_failed ensure cause))
        | none ↦ (d', check_applied migrations (store.applied d'))
      ]

  abbrev pub status_of : List AppliedMigration → Migration D Cause → MigrationStatus
  status_of rows m = elim (find_by record_version m.version rows) [
    | some r ↦ record { version = m.version; name = m.name; applied = true; batch = r.batch }
    | none ↦ record { version = m.version; name = m.name; applied = false; batch = pos 0 }
  ]

  -- Status
  unfoldable pub status :
      MigrationStore D Cause
      → Context Cause
      → Runner D Cause
      → D
      → D × Result (Error Cause) (List MigrationStatus)
  status store context runner d = elim (validate_context context) [
    | some e ↦ (d, err e)
    | none ↦
        let (d', loaded) = load_applied store (migration_snapshot runner) d in
        elim loaded [
          | err e ↦ (d', err e)
          | ok rows ↦ (d', ok (map (status_of rows) (migration_snapshot runner)))
        ]
  ]

  abbrev pub prepend : AppliedMigration → Outcome D Cause → Outcome D Cause
  prepend row outcome = record outcome {
    result = record outcome.result { rows = row ∷ outcome.result.rows };
  }

  -- The loops of Migrate and Rollback
  unfoldable pub run_turns :
      Transactions D Cause → Direction → ℤ → List (Turn D Cause) → D → Outcome D Cause
  run_turns sql direction batch [] d = record {
    database = d;
    result = record { batch = batch; rows = [] };
    error = none;
  }
  run_turns sql direction batch (turn ∷ turns) d =
      let (d', e) = execute sql turn.disable_transaction turn.operation d in
      elim e [
        | some e ↦ record {
          database = d';
          result = record { batch = batch; rows = [] };
          error = some (migration_failure direction turn.row e);
        }
        | none ↦ prepend turn.row (run_turns sql direction batch turns d')
      ]

  abbrev pub refused : Error Cause → D → Outcome D Cause
  refused e d = record { database = d; result = no_result; error = some e }

  abbrev pub row_of : ℕ → Migration D Cause → AppliedMigration
  row_of batch m = record { version = m.version; name = m.name; batch = pos batch }

  unfoldable pub up_turn : MigrationStore D Cause → ℕ → Migration D Cause → Turn D Cause
  up_turn store batch m = record {
    row = row_of batch m;
    disable_transaction = m.disable_transaction;
    operation = apply_one store m.up (row_of batch m);
  }

  abbrev pub is_pending : List AppliedMigration → Migration D Cause → Bool
  is_pending rows m = not (is_set (find_by record_version m.version rows))

  -- Migrate, from the pending migrations on
  unfoldable pub run_pending : Transactions D Cause → ℤ → List (Turn D Cause) → D → Outcome D Cause
  run_pending sql batch [] d = record { database = d; result = no_result; error = none }
  run_pending sql batch (turn ∷ turns) d = run_turns sql Direction.up batch (turn ∷ turns) d

  -- Migrate, from the rows that loadApplied returned
  unfoldable pub migrate_from :
      Transactions D Cause
      → MigrationStore D Cause
      → List (Migration D Cause)
      → List AppliedMigration
      → D
      → Outcome D Cause
  migrate_from sql store migrations rows d =
      let latest = latest_batch rows in
      let turns = map (up_turn store (latest + 1)) (keep_if (is_pending rows) migrations) in
      let ran = run_pending sql (pos (latest + 1)) turns d in
      if latest == max_int64 then refused batch_overflow d else ran

  -- How Migrate and Rollback begin: the context, the snapshot and loadApplied
  unfoldable pub with_history :
      MigrationStore D Cause
      → Context Cause
      → Runner D Cause
      → D
      → (List (Migration D Cause) → List AppliedMigration → D → Outcome D Cause)
      → Outcome D Cause
  with_history store context runner d continue = elim (validate_context context) [
    | some e ↦ refused e d
    | none ↦
        let (d', loaded) = load_applied store (migration_snapshot runner) d in
        elim loaded [
          | err e ↦ refused e d'
          | ok rows ↦ continue (migration_snapshot runner) rows d'
        ]
  ]

  -- Migrate; the runner it leaves is `close_registration context runner`
  unfoldable pub migrate :
      Transactions D Cause
      → MigrationStore D Cause
      → Context Cause
      → Runner D Cause
      → D
      → Outcome D Cause
  migrate sql store context runner d = with_history store context runner d (migrate_from sql store)

  -- The runner that Migrate and Rollback leave: snapshot(true) closes registration.
  unfoldable pub close_registration : Context Cause → Runner D Cause → Runner D Cause
  close_registration context runner = elim (validate_context context) [
    | some e ↦ runner
    | none ↦ record runner { registration_closed = true }
  ]

  abbrev pub down_of : Option (Migration D Cause) → Option (Callback D Cause)
  down_of none = none
  down_of (some m) = m.down

  abbrev pub is_without_transaction : Option (Migration D Cause) → Bool
  is_without_transaction none = false
  is_without_transaction (some m) = m.disable_transaction

  -- The loop of Rollback that collects the rows of the latest batch: those behind come first.
  unfoldable pub collect_batch :
      List (Migration D Cause)
      → ℕ
      → List AppliedMigration
      → List AppliedMigration
      → Result (Error Cause) (List AppliedMigration)
  collect_batch definitions latest collected [] = ok collected
  collect_batch definitions latest collected (r ∷ rs) =
      let others = collect_batch definitions latest collected rs in
      let kept = collect_batch definitions latest (collected ++ r ∷ []) rs in
      if not (is_batch latest r.batch)
      then others
      else if not (is_set (down_of (find_by version_of r.version definitions)))
      then err (down_unavailable r.version)
      else kept

  unfoldable pub down_turn :
      MigrationStore D Cause → List (Migration D Cause) → AppliedMigration → Turn D Cause
  down_turn store definitions r =
      let definition = find_by version_of r.version definitions in
      record {
        row = r;
        disable_transaction = is_without_transaction definition;
        operation = revert_one store (down_of definition) r;
      }

  -- Rollback, from the rows that loadApplied returned
  unfoldable pub rollback_from :
      Transactions D Cause
      → MigrationStore D Cause
      → List (Migration D Cause)
      → List AppliedMigration
      → D
      → Outcome D Cause
  rollback_from sql store definitions rows d =
      let latest = latest_batch rows in
      if latest == 0
      then record { database = d; result = no_result; error = none }
      else elim (collect_batch definitions latest [] (reverse_onto [] rows)) [
        | err e ↦ refused e d
        | ok batch ↦
            run_turns sql Direction.down (pos latest) (map (down_turn store definitions) batch) d
      ]

  -- Rollback; the runner it leaves is `close_registration context runner`
  unfoldable pub rollback :
      Transactions D Cause
      → MigrationStore D Cause
      → Context Cause
      → Runner D Cause
      → D
      → Outcome D Cause
  rollback sql store context runner d =
      with_history store context runner d (rollback_from sql store)
