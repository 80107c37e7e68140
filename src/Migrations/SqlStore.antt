-- ===== src/Migrations/SqlStore.antt =====
-- backend/framework/migration_store.go: the history of migrations in a table of an SQL database. What
-- an SQLExecutor does with a statement is a parameter.
use bridra.Common.{
  ℕ, Bool, true, false, not, ◌&&◌, ◌||◌, Option, none, some, List, [], ◌∷◌, ◌++◌, leb, ◌==◌,
  if◌then◌else◌, Result, ok, err, ℤ,
}
use bridra.Common.Texts.{Text, codes}
use bridra.Common.Decimal.{format_uint}
use bridra.Migrations.Migration.{AppliedMigration, is_empty}
use bridra.Migrations.Engine.{MigrationStore}

-- SQLPlaceholderStyle
pub data PlaceholderStyle : Type 0 where
  no_style question_mark dollar : PlaceholderStyle
  other_style : Text → PlaceholderStyle

-- SQLMigrationStoreOptions, and SQLMigrationStore
pub record SqlMigrationStore : Type 0 where
  pub table : Text
  pub placeholder_style : PlaceholderStyle

-- DefaultSQLMigrationStoreOptions
abbrev pub default_options : SqlMigrationStore
default_options = record { table = codes "bridra_migrations"; placeholder_style = question_mark }

abbrev pub is_letter : ℕ → Bool
is_letter c = (leb 97 c && leb c 122) || (leb 65 c && leb c 90) || (c == 95)

-- The loop of validSQLIdentifier; `later` says that the code point is not the first.
unfoldable pub are_identifier_codes : Bool → Text → Bool
are_identifier_codes later [] = true
are_identifier_codes later (c ∷ cs) =
    (is_letter c || (later && leb 48 c && leb c 57)) && are_identifier_codes true cs

-- validSQLIdentifier
unfoldable pub valid_sql_identifier : Text → Bool
valid_sql_identifier identifier = not (is_empty identifier) && are_identifier_codes false identifier

abbrev pub style_or_default : PlaceholderStyle → PlaceholderStyle
style_or_default no_style = question_mark
style_or_default style = style

abbrev pub is_known_style : PlaceholderStyle → Bool
is_known_style question_mark = true
is_known_style dollar = true
is_known_style _ = false

-- NewSQLMigrationStore, with none for ErrInvalidSQLMigrationStoreOptions
unfoldable pub new_sql_migration_store : SqlMigrationStore → Option SqlMigrationStore
new_sql_migration_store options =
    let table = if is_empty options.table then default_options.table else options.table in
    let style = style_or_default options.placeholder_style in
    if not (valid_sql_identifier table) || not (is_known_style style)
    then none
    else some (record { table = table; placeholder_style = style })

-- placeholder
unfoldable pub placeholder : PlaceholderStyle → ℕ → Text
placeholder dollar index = 36 ∷ format_uint index
placeholder _ index = codes "?"

-- fmt.Sprintf of a format cut at its verbs
unfoldable pub concat : List Text → Text
concat [] = []
concat (t ∷ ts) = t ++ concat ts

-- An argument of a statement
pub data Argument : Type 0 where
  text : Text → Argument
  integer : ℤ → Argument

-- The rows of a query, as Next, Scan, Err and Close give them.
pub record SqlRows (Cause : Type 0) : Type 0 where
  pub scans : List (Result Cause AppliedMigration)
  pub iteration_error : Option Cause
  pub close_error : Option Cause

-- SQLExecutor, as the store uses it.
pub record SqlExecutor (D Cause : Type 0) : Type 0 where
  pub exec : Text → List Argument → D → D × Option Cause
  pub query : Text → D → Result Cause (SqlRows Cause)

-- The loop of Applied
unfoldable pub scan_rows :
    {Cause : Type 0} → List (Result Cause AppliedMigration) → Result Cause (List AppliedMigration)
scan_rows [] = ok []
scan_rows (err e ∷ rest) = err e
scan_rows (ok row ∷ rest) = elim (scan_rows rest) [ err e ↦ err e | ok list ↦ ok (row ∷ list) ]

-- Applied, on the answer of the query
unfoldable pub read_applied :
    {Cause : Type 0} → Result Cause (SqlRows Cause) → Result Cause (List AppliedMigration)
unfolding scan_rows
read_applied (err e) = err e
read_applied (ok rows) = elim (scan_rows rows.scans) [
  | err e ↦ err e
  | ok list ↦ elim rows.iteration_error [
    | some e ↦ err e
    | none ↦ elim rows.close_error [ some e ↦ err e | none ↦ ok list ]
  ]
]

module _ (s : SqlMigrationStore) where
  -- The texts of the statements of Ensure, Applied, Record and Remove
  unfoldable pub ensure_statement : Text
  ensure_statement = concat (
      codes "CREATE TABLE IF NOT EXISTS "
      ∷ s.table
      ∷ codes
          " (version VARCHAR(255) PRIMARY KEY, name VARCHAR(255) NOT NULL, batch BIGINT NOT NULL)"
      ∷ [])

  unfoldable pub applied_statement : Text
  applied_statement =
      concat
        (codes "SELECT version, name, batch FROM " ∷ s.table ∷ codes " ORDER BY version ASC" ∷ [])

  unfoldable pub record_statement : Text
  record_statement = concat (
      codes "INSERT INTO "
      ∷ s.table
      ∷ codes " (version, name, batch) VALUES ("
      ∷ placeholder s.placeholder_style 1
      ∷ codes ", "
      ∷ placeholder s.placeholder_style 2
      ∷ codes ", "
      ∷ placeholder s.placeholder_style 3
      ∷ codes ")"
      ∷ [])

  unfoldable pub remove_statement : Text
  remove_statement = concat (
      codes "DELETE FROM "
      ∷ s.table
      ∷ codes " WHERE version = "
      ∷ placeholder s.placeholder_style 1
      ∷ [])

  -- Ensure, Applied, Record and Remove
  unfoldable pub sql_store : {D Cause : Type 0} → SqlExecutor D Cause → MigrationStore D Cause
  sql_store executor = record {
    ensure = executor.exec ensure_statement [];
    applied = λ d. read_applied (executor.query applied_statement d);
    record_row = λ row.
        executor.exec record_statement (text row.version ∷ text row.name ∷ integer row.batch ∷ []);
    remove_row = λ version. executor.exec remove_statement (text version ∷ []);
  }
