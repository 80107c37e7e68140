-- ===== src/JobStore/History.antt =====
-- Histories of backend/framework/file_job_store.go: calls with what each reads from outside.
use bridra.Common.{ℕ, false, Option, List, [], ◌∷◌, String}
use bridra.JobStore.Job.{Context, StoredJob, JobReservation, Json}
use bridra.JobStore.Log.{Event, Write, empty_file}
use bridra.JobStore.Operations.{
  Store, enqueue_job, reserve_job, release_job, complete_job, fail_job, retry_failed, forget_failed,
  close,
}

pub data Call : Type 0 where
  enqueues : Context → StoredJob → Call
  reserves : Context → Option String → ℕ → ℕ → Call
  releases : Context → JobReservation → ℕ → String → Call
  completes : Context → JobReservation → Call
  fails : Context → ℕ → JobReservation → String → Call
  retries : Context → String → ℕ → Call
  forgets : Context → String → Call
  closes : Call

-- The store that a call leaves, given the outcome of the write that it may make.
unfoldable pub step : Json Event → Store → Write → Call → Store
step json s w (enqueues ctx job) = (enqueue_job json ctx w job s).1
step json s w (reserves ctx token now lease) = (reserve_job json ctx w token now lease s).1
step json s w (releases ctx r at message) = (release_job json ctx w r at message s).1
step json s w (completes ctx r) = (complete_job json ctx w r s).1
step json s w (fails ctx at r message) = (fail_job json ctx w at r message s).1
step json s w (retries ctx id at) = (retry_failed json ctx w id at s).1
step json s w (forgets ctx id) = (forget_failed json ctx w id s).1
step json s w closes = close s

unfoldable pub run : Json Event → Store → List (Write × Call) → Store
run json s [] = s
run json s ((w, c) ∷ rest) = run json (step json s w c) rest

-- A store on a log file that did not exist.
abbrev pub new_store : ℕ → ℕ → Store
new_store max_jobs max_payload_bytes = record {
  max_jobs = max_jobs;
  max_payload_bytes = max_payload_bytes;
  jobs = [];
  closed = false;
  file = empty_file;
}
