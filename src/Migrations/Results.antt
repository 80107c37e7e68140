-- ===== src/Migrations/Results.antt =====
-- What Status, Migrate and Rollback of backend/framework/migrations.go share: contexts, batches, turns
-- and results.
use bridra.Common.{
  ℕ, ◌-◌, ◌^◌, ℤ, pos, negsuc, Bool, false, not, ◌||◌, Option, none, some, List, [], ◌∷◌, ltb, ◌==◌,
  if◌then◌else◌, all,
}
use bridra.Common.Texts.{Text, is_space}
use bridra.Migrations.Migration.{
  AppliedMigration, Error, context_unavailable, transaction_already_active, context_error,
}
use bridra.Migrations.Engine.{Step}

-- What validateContext reads of a context: whether it is nil, has an error, and carries a
-- transaction of the database.
pub data Context (Cause : Type 0) : Type 0 where
  nil_context : Context Cause
  ended : Cause → Context Cause
  in_transaction live : Context Cause

pub record MigrationStatus : Type 0 where
  pub version : Text
  pub name : Text
  pub applied : Bool
  pub batch : ℤ

-- MigrationRunResult and MigrationRollbackResult: a batch and its rows
pub record RunResult : Type 0 where
  pub batch : ℤ
  pub rows : List AppliedMigration

abbrev pub no_result : RunResult
no_result = record { batch = pos 0; rows = [] }

abbrev pub is_positive : ℤ → Bool
is_positive (pos n) = ltb 0 n
is_positive (negsuc n) = false

-- The larger of a batch and the latest batch so far.
abbrev pub later_batch : ℤ → ℕ → ℕ
later_batch (pos n) latest = if ltb latest n then n else latest
later_batch (negsuc n) latest = latest

unfoldable pub latest_from : ℕ → List AppliedMigration → ℕ
latest_from latest [] = latest
latest_from latest (r ∷ rs) = latest_from (later_batch r.batch latest) rs

unfoldable pub latest_batch : List AppliedMigration → ℕ
latest_batch rows = latest_from 0 rows

abbrev pub is_batch : ℕ → ℤ → Bool
is_batch n (pos k) = k == n
is_batch n (negsuc k) = false

-- math.MaxInt64
abbrev pub max_int64 : ℕ
max_int64 = 2 ^ 63 - 1

-- validateContext
unfoldable pub validate_context : {Cause : Type 0} → Context Cause → Option (Error Cause)
validate_context nil_context = some context_unavailable
validate_context (ended cause) = some (context_error cause)
validate_context in_transaction = some transaction_already_active
validate_context live = none

abbrev pub is_malformed : AppliedMigration → Bool
is_malformed r = all is_space r.version || all is_space r.name || not (is_positive r.batch)

-- One turn of the loops of Migrate and Rollback: the row it is about and what it executes.
pub record Turn (D Cause : Type 0) : Type 0 where
  pub row : AppliedMigration
  pub disable_transaction : Bool
  pub operation : D → Step D Cause

-- What Migrate and Rollback return, and the database they leave.
pub record Outcome (D Cause : Type 0) : Type 0 where
  pub database : D
  pub result : RunResult
  pub error : Option (Error Cause)

abbrev pub reverse_onto {ℓ} : {A : Type ℓ} → List A → List A → List A
reverse_onto done [] = done
reverse_onto done (x ∷ xs) = reverse_onto (x ∷ done) xs
