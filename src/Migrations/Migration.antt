-- ===== src/Migrations/Migration.antt =====
-- Migrations and their registration, backend/framework/migrations.go. `D` is the database that a
-- callback reads and writes and `Cause` an error from outside.
use bridra.Common.{
  ℕ, ◌+◌, ℤ, Bool, true, false, not, ◌&&◌, ◌||◌, Option, none, some, List, [], ◌∷◌, ◌++◌, ltb,
  if◌then◌else◌, Result, ok, err,
}
use bridra.Common.Texts.{Text, is_space}
use bridra.Common.Ordering.{find_by, sort_by}

-- How a callback ends, with the database it leaves.
pub data Called (D Cause : Type 0) : Type 0 where
  returned : D → Called D Cause
  failed : D → Cause → Called D Cause
  panicked : D → Cause → Called D Cause

-- MigrationFunc
abbrev pub Callback : Type 0 → Type 0 → Type 0
Callback D Cause = D → Called D Cause

pub record Migration (D Cause : Type 0) : Type 0 where
  pub version : Text
  pub name : Text
  pub up : Option (Callback D Cause)
  pub down : Option (Callback D Cause)
  pub disable_transaction : Bool

pub record AppliedMigration : Type 0 where
  pub version : Text
  pub name : Text
  pub batch : ℤ

pub data Direction : Type 0 where
  up down : Direction

pub data StoreOperation : Type 0 where
  ensure list_applied record_applied remove : StoreOperation

-- The errors by their sentinels and what they wrap.
pub data Error (Cause : Type 0) : Type 0 where
  context_unavailable transaction_already_active : Error Cause
  context_error : Cause → Error Cause
  invalid_migration registration_closed : Error Cause
  already_defined : Text → Error Cause
  store_failed : StoreOperation → Cause → Error Cause
  malformed_history batch_overflow : Error Cause
  duplicate_version definition_missing down_unavailable : Text → Error Cause
  name_mismatch : Text → Text → Text → Error Cause
  callback_failed callback_panicked : Cause → Error Cause
  nil_callback : Error Cause
  begin_failed commit_failed : Cause → Error Cause
  rollback_failed : Error Cause → Cause → Error Cause
  migration_failure : Direction → AppliedMigration → Error Cause → Error Cause

abbrev pub version_of : {D Cause : Type 0} → Migration D Cause → Text
version_of m = m.version

abbrev pub record_version : AppliedMigration → Text
record_version r = r.version

-- MigrationRunner, without the database and the store that it is made with
pub record Runner (D Cause : Type 0) : Type 0 where
  pub migrations : List (Migration D Cause)
  pub registration_closed : Bool

-- The bytes of a code point in UTF-8, and len of a text.
unfoldable pub code_bytes : ℕ → ℕ
code_bytes c = if ltb c 0x80 then 1 else if ltb c 0x800 then 2 else if ltb c 0x10000 then 3 else 4

unfoldable pub byte_length : Text → ℕ
byte_length [] = 0
byte_length (c ∷ cs) = code_bytes c + byte_length cs

unfoldable pub trim_left : Text → Text
trim_left [] = []
trim_left (c ∷ cs) = let rest = trim_left cs in if is_space c then rest else c ∷ cs

abbrev pub is_empty : Text → Bool
is_empty [] = true
is_empty (c ∷ cs) = false

unfoldable pub trim_right : Text → Text
trim_right [] = []
trim_right (c ∷ cs) =
    let rest = trim_right cs in if is_space c && is_empty rest then [] else c ∷ rest

-- strings.TrimSpace
unfoldable pub trim : Text → Text
trim t = trim_right (trim_left t)

abbrev pub is_set {ℓ} : {A : Type ℓ} → Option A → Bool
is_set none = false
is_set (some a) = true

-- strings.TrimSpace(t) == "" || len(strings.TrimSpace(t)) > 255, of a trimmed text
abbrev pub is_bad_label : Text → Bool
is_bad_label t = is_empty t || ltb 255 (byte_length t)

module _ {D Cause : Type 0} where
  unfoldable pub normalize : Migration D Cause → Migration D Cause
  normalize m = record m { version = trim m.version; name = trim m.name }

  unfoldable pub is_invalid : Migration D Cause → Bool
  is_invalid m = is_bad_label m.version || is_bad_label m.name || not (is_set m.up)

  abbrev pub new_runner : Runner D Cause
  new_runner = record { migrations = []; registration_closed = false }

  -- The loop of Register: what it has `seen`, and the migrations still to be checked.
  unfoldable pub check_new :
      List (Migration D Cause)
      → List (Migration D Cause)
      → List (Migration D Cause)
      → Result (Error Cause) (List (Migration D Cause))
  check_new registered seen [] = ok seen
  check_new registered seen (given ∷ rest) =
      let m = normalize given in
      let later = check_new registered (seen ++ m ∷ []) rest in
      if is_invalid m
      then err invalid_migration
      else if is_set (find_by version_of m.version registered)
      then err (already_defined m.version)
      else if is_set (find_by version_of m.version seen)
      then err (already_defined m.version)
      else later

  -- Register
  unfoldable pub register :
      List (Migration D Cause) → Runner D Cause → Runner D Cause × Option (Error Cause)
  register given runner =
      if runner.registration_closed
      then (runner, some registration_closed)
      else elim (check_new runner.migrations [] given) [
        | err e ↦ (runner, some e)
        | ok normalized ↦ (record runner { migrations = runner.migrations ++ normalized }, none)
      ]

  -- migrationSnapshotLocked
  unfoldable pub migration_snapshot : Runner D Cause → List (Migration D Cause)
  migration_snapshot runner = sort_by version_of runner.migrations

  -- Registered
  unfoldable pub registered : Runner D Cause → List (Migration D Cause)
  unfolding migration_snapshot
  registered runner = migration_snapshot runner
