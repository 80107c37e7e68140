-- ===== src/JobStore/Opening.antt =====
-- Opening and closing the log of backend/framework/file_job_store.go: NewFileJobStore with its options,
-- and Close with its error.
use bridra.Common.{ℕ, ℤ, pos, negsuc, ◌*◌, Bool, Option, none, some, String, ◌==◌, if◌then◌else◌}
use bridra.Common.Texts.{is_blank}
use bridra.JobStore.Job.{Result, ok, err, Json, operation_failed, options_invalid}
use bridra.JobStore.Log.{Event, File}
use bridra.JobStore.Operations.{Store, close, open_store}

pub record FileJobStoreOptions : Type 0 where
  pub path : String
  pub max_jobs : ℤ
  pub max_payload_bytes : ℤ

-- The limits of the normalized options.
pub record Limits : Type 0 where
  pub jobs : ℕ
  pub payload_bytes : ℕ

-- A limit, or the default for 0, where it is not negative.
abbrev pub limit_or : ℤ → ℕ → Option ℕ
limit_or (negsuc n) standard = none
limit_or (pos n) standard = some (if n == 0 then standard else n)

-- normalizeFileJobStoreOptions; `absolute` says whether filepath.Abs gives the trimmed path.
unfoldable pub normalize_file_job_store_options : Bool → FileJobStoreOptions → Result Limits
normalize_file_job_store_options absolute options =
    if is_blank options.path then err options_invalid else elim (limit_or options.max_jobs 10000) [
      | none ↦ err options_invalid
      | some jobs ↦ elim (limit_or options.max_payload_bytes (4 * 1024 * 1024)) [
        | none ↦ err options_invalid
        | some payload_bytes ↦
            if absolute
            then ok (record { jobs = jobs; payload_bytes = payload_bytes })
            else err options_invalid
      ]
    ]

-- NewFileJobStore; `opened` is the log file, or none where the directory cannot be made, or the file
-- not opened or secured.
unfoldable pub new_file_job_store :
    Json Event → Bool → FileJobStoreOptions → Option File → Result Store
unfolding normalize_file_job_store_options
new_file_job_store json absolute options opened =
    elim (normalize_file_job_store_options absolute options) [
      | err e ↦ err e
      | ok limits ↦ elim opened [
        | none ↦ err operation_failed
        | some file ↦ open_store json limits.jobs limits.payload_bytes file
      ]
    ]

-- FileJobStore.Close, with its answer; `closes` says whether the file closes without an error.
unfoldable pub close_file_job_store : Bool → Store → Result (Unit {0}) × Store
close_file_job_store closes store =
    if store.closed
    then (ok tt, store)
    else (if closes then ok tt else err operation_failed, close store)
