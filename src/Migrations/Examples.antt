-- ===== src/Migrations/Examples.antt =====
-- Two migrations of backend/framework/migrations.go, of which one has been applied.
use bridra.Common.{
  ok, ◌↔◌, ℕ, ◌+◌, ◌-◌, ◌≡◌, refl, true, false, none, some, List, [], ◌∷◌, pos, All, arith, keep_if,
  subst,
}
use bridra.Common.Texts.{codes, same_text, before, is_space}
use bridra.Common.Ordering.{find_by, sort_by, insert_by}
use bridra.Migrations.Migration.{
  Migration, AppliedMigration, Callback, returned, Runner, new_runner, register, check_new,
  normalize, is_invalid, trim, trim_left, trim_right, byte_length, code_bytes, version_of,
  migration_snapshot,
}
use bridra.Migrations.Engine.{
  invoke_migration, execute, within_transaction, finish, wrap, apply_one, revert_one, and_then,
  LeavesRows,
}
use bridra.Migrations.Results.{live, validate_context, latest_batch, latest_from, max_int64}
use bridra.Migrations.Runner.{
  migrate, rollback, with_history, load_applied, check_applied, check_history, check_definition,
  migrate_from, rollback_from, run_pending, run_turns, up_turn, down_turn, collect_batch,
}
use bridra.Migrations.History.{row_at, changes, put}
use bridra.Migrations.Registry.{IsRegistry, register-IsRegistry}
use bridra.Migrations.Pending.{owed}
use bridra.Migrations.Applying.{migrate_complete, migrate-changes}
use bridra.Migrations.Batches.{AtMost}
use bridra.Migrations.Restoring.{rollback-migrate}
use bridra.Migrations.Bounds.{migrate-AtMost_max}
use bridra.Migrations.SqlStore.{
  sql_store, dollar, SqlMigrationStore, SqlExecutor, new_sql_migration_store,
}
use bridra.Migrations.SqlNames.{Accepts, new_sql_migration_store_iff}
use bridra.Migrations.SqlRead.{ReadWhole, sql_store-applied_iff}
use bridra.Migrations.Table.{
  Database, rows_of, table_store, snapshots, snapshots-IsTransactional, table_store-IsHistory,
}

abbrev add_table : Callback Database ℕ
add_table d = returned (d.0, d.1 + 1)

abbrev drop_table : Callback Database ℕ
drop_table d = returned (d.0, d.1 - 1)

abbrev users : Migration Database ℕ
users = record {
  version = codes "2026_01";
  name = codes "users";
  up = some add_table;
  down = some drop_table;
  disable_transaction = false;
}

abbrev orders : Migration Database ℕ
orders = record {
  version = codes " 2026_02 ";
  name = codes "orders";
  up = some add_table;
  down = some drop_table;
  disable_transaction = true;
}

abbrev given : List (Migration Database ℕ)
given = orders ∷ users ∷ []

abbrev runner : Runner Database ℕ
runner = record {
  migrations = record orders { version = codes "2026_02" } ∷ users ∷ [];
  registration_closed = false;
}

abbrev users_row : AppliedMigration
users_row = record { version = codes "2026_01"; name = codes "users"; batch = pos 1 }

abbrev orders_row : AppliedMigration
orders_row = record { version = codes "2026_02"; name = codes "orders"; batch = pos 2 }

abbrev one_applied : Database
unfolding find_by
one_applied = ((users_row ∷ [], (refl, tt)), 1)

registered_both : (register given new_runner).0 ≡ runner
unfolding register check_new normalize is_invalid trim trim_left trim_right byte_length code_bytes
    is_space find_by same_text
registered_both = refl

migrated : (migrate snapshots table_store live runner one_applied).error ≡ none
unfolding migrate with_history load_applied check_applied check_history check_definition
    validate_context migrate_from run_pending run_turns up_turn latest_batch latest_from
    migration_snapshot sort_by insert_by find_by same_text before is_space keep_if execute
    within_transaction finish wrap apply_one and_then invoke_migration
migrated = refl

start-IsRegistry : IsRegistry {D = Database} {Cause = ℕ} []
start-IsRegistry = record { distinct = tt; valid = tt }

both-IsRegistry : IsRegistry runner.migrations
both-IsRegistry =
    subst (λ r. IsRegistry r.migrations) registered_both
      (register-IsRegistry given new_runner start-IsRegistry)

ups : All (λ m. LeavesRows rows_of m.up) runner.migrations
unfolding invoke_migration
ups = (λ d. refl, (λ d. refl, tt))

downs : All (λ m. LeavesRows rows_of m.down) runner.migrations
unfolding invoke_migration
downs = (λ d. refl, (λ d. refl, tt))

register-IsRegistry_example : IsRegistry (register given new_runner).0.migrations
register-IsRegistry_example = register-IsRegistry given new_runner start-IsRegistry

migrate_complete_example :
    row_at
      (codes "2026_02")
      (rows_of (migrate snapshots table_store live runner one_applied).database)
    ≡ owed
        (latest_batch (rows_of one_applied) + 1)
        (find_by version_of (codes "2026_02") runner.migrations)
        (row_at (codes "2026_02") (rows_of one_applied))
migrate_complete_example =
    migrate_complete snapshots table_store rows_of table_store-IsHistory snapshots-IsTransactional
      live runner one_applied (codes "2026_02") both-IsRegistry.distinct ups migrated

migrate-changes_example :
    row_at
      (codes "2026_01")
      (rows_of (migrate snapshots table_store live runner one_applied).database)
    ≡ changes put
        (migrate snapshots table_store live runner one_applied).result.rows
        (codes "2026_01")
        (row_at (codes "2026_01") (rows_of one_applied))
migrate-changes_example =
    migrate-changes snapshots table_store rows_of snapshots-IsTransactional table_store-IsHistory
      live runner one_applied (codes "2026_01") ups

accepted_before : check_history (migration_snapshot runner) [] (rows_of one_applied) ≡ none
unfolding check_history check_definition migration_snapshot sort_by insert_by find_by same_text
    before is_space
accepted_before = refl

reverted : (rollback snapshots table_store live runner one_applied).error ≡ none
unfolding rollback with_history load_applied check_applied check_history check_definition
    validate_context rollback_from run_turns down_turn collect_batch latest_batch latest_from
    migration_snapshot sort_by insert_by find_by same_text before is_space execute
    within_transaction finish wrap revert_one and_then invoke_migration
reverted = refl

pending_before : row_at (codes "2026_02") (rows_of one_applied) ≡ none
unfolding find_by same_text
pending_before = refl

known_before :
    find_by version_of (codes "2026_02") runner.migrations
    ≡ some (record orders { version = codes "2026_02" })
unfolding find_by same_text
known_before = refl

reverted_after :
    (rollback snapshots table_store live runner
      (migrate snapshots table_store live runner one_applied).database).error
    ≡ none
unfolding migrate rollback with_history load_applied check_applied check_history check_definition
    validate_context migrate_from rollback_from run_pending run_turns up_turn down_turn
    collect_batch latest_batch latest_from migration_snapshot sort_by insert_by find_by same_text
    before is_space keep_if execute within_transaction finish wrap apply_one revert_one and_then
    invoke_migration
reverted_after = refl

rollback-migrate_example :
    row_at (codes "2026_02") (
      rows_of
        (rollback snapshots table_store live runner
          (migrate snapshots table_store live runner one_applied).database).database)
    ≡ row_at (codes "2026_02") (rows_of one_applied)
rollback-migrate_example =
    rollback-migrate snapshots snapshots-IsTransactional table_store rows_of table_store-IsHistory
      runner both-IsRegistry.distinct ups live live one_applied (codes "2026_02") (codes "2026_02")
      (record orders { version = codes "2026_02" }) downs pending_before known_before migrated
      reverted_after

small_batches : All (AtMost max_int64) (rows_of one_applied)
unfolding AtMost one_applied
small_batches = (omega arith, tt)

migrate-AtMost_max_example :
    All
      (AtMost max_int64)
      (rows_of (migrate snapshots table_store live runner one_applied).database)
migrate-AtMost_max_example =
    migrate-AtMost_max snapshots snapshots-IsTransactional table_store rows_of table_store-IsHistory
      live runner one_applied ups small_batches

abbrev short_options : SqlMigrationStore
short_options = record { table = []; placeholder_style = dollar }

abbrev standard_store : SqlMigrationStore
standard_store = record { table = codes "bridra_migrations"; placeholder_style = dollar }

-- The default table is used where none is given.
new_sql_migration_store_iff_example :
    (new_sql_migration_store short_options ≡ some standard_store)
    ↔ Accepts short_options standard_store
new_sql_migration_store_iff_example = new_sql_migration_store_iff short_options standard_store

-- An executor whose query finds the row of the users.
abbrev failing_executor : SqlExecutor Database ℕ
failing_executor = record {
  exec = λ statement arguments d. (d, none);
  query = λ statement d.
      ok (record { scans = ok users_row ∷ []; iteration_error = none; close_error = none });
}

sql_store-applied_iff_example :
    ((sql_store standard_store failing_executor).applied one_applied ≡ ok (users_row ∷ []))
    ↔ ReadWhole {Cause = ℕ}
        (ok (record { scans = ok users_row ∷ []; iteration_error = none; close_error = none }))
        (users_row ∷ [])
sql_store-applied_iff_example =
    sql_store-applied_iff standard_store failing_executor one_applied (users_row ∷ [])
