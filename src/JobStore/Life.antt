-- ===== src/JobStore/Life.antt =====
-- What a call may make of the records of backend/framework/file_job_store.go: one move of one job.
use bridra.Common.{◌≡◌, ◌⊎◌, some, String}
use bridra.Common.Dict.{lookup}
use bridra.JobStore.Job.{FileStoredJob, Json}
use bridra.JobStore.Log.{Event, reserve, Write, Jobs}
use bridra.JobStore.Operations.{Store}
use bridra.JobStore.Moves.{Moves, OneMoves}

-- Only a job that has not failed is reserved.
abbrev SparesFailed : Jobs → Event → Type 0
SparesFailed jobs (reserve id token until attempts) =
    (r : FileStoredJob) → lookup id jobs ≡ some r → r.failed_at ≡ 0
SparesFailed jobs _ = Unit {0}

module _ (json : Json Event) (s : Store) where
  -- The map is as it was, or the write went well and one job has made a move.
  abbrev pub IsOneMove : Write → Jobs → Type 0
  IsOneMove w after =
      (after ≡ s.jobs)
      ⊎ ((w ≡ Write.written) × (k : String) × ((id : String) → OneMoves k s.jobs after id))
