-- ===== src/JobQueue/Fates.antt =====
-- The ends that a reserved job of a FileJobStore can come to, as the comments of
-- backend/framework/jobs_persistent.go and backend/framework/file_job_store.go give them.
use bridra.Common.{ℕ, ◌+◌, ◌≤◌, ◌<◌, ◌≡◌, Option, none, some, List, [], ◌∷◌, String}
use bridra.JobStore.Job.{JobReservation, FileStoredJob, normalize_error}
use bridra.JobQueue.Executing.{Outcome, AttemptError, execute_attempt}
use bridra.JobQueue.Handlers.{HandlerEntry}
use bridra.JobQueue.Persistent.{
  Failure, handler_not_found, attempts_exceeded, payload_decoding_failed, attempt_failed,
  execution_failed, Report, job_failed,
}

module _ (r : JobReservation) (entry : Option HandlerEntry) (outcome : ℕ → Outcome) where
  -- An attempt within the limit, on the value that the payload holds.
  pub record Attempted (h : HandlerEntry) (result : Option AttemptError) : Type 0 where
    pub handled : entry ≡ some h
    pub within : r.job.attempts ≤ h.options.max_attempts
    pub value : ℕ
    pub decoded : h.decode r.job.payload ≡ some value
    pub attempted : execute_attempt (outcome value) ≡ result

  -- Why a job ends as failed: the limit that is reported, and the failure.
  pub data Ending : ℕ → Failure → Type 0 where
    unhandled : entry ≡ none → Ending 0 handler_not_found
    over_limit :
        (h : HandlerEntry)
        → entry ≡ some h
        → h.options.max_attempts < r.job.attempts
        → Ending h.options.max_attempts attempts_exceeded
    undecoded :
        (h : HandlerEntry)
        → entry ≡ some h
        → r.job.attempts ≤ h.options.max_attempts
        → h.decode r.job.payload ≡ none
        → Ending h.options.max_attempts payload_decoding_failed
    last :
        (h : HandlerEntry) (e : AttemptError)
        → Attempted h (some e)
        → r.job.attempts ≡ h.options.max_attempts
        → Ending h.options.max_attempts (execution_failed e)

  -- What becomes of the record that a reservation of a job found, and what is reported of it.
  module _ (text : Failure → String) (clock now : ℕ) (stored : FileStoredJob) where
    pub data Fate : Option FileStoredJob × List Report → Type 0 where
      removed : (h : HandlerEntry) → Attempted h none → Fate (none, [])
      returned :
          (h : HandlerEntry) (e : AttemptError)
          → Attempted h (some e)
          → r.job.attempts < h.options.max_attempts
          → Fate (
            some (record {
              job = record stored.job { available_at = now + h.options.retry_backoff };
              reservation_token = "";
              reserved_until = 0;
              failed_at = stored.failed_at;
              last_error = normalize_error (text (attempt_failed e));
            }),
            [],
          )
      marked_failed :
          (max : ℕ) (f : Failure)
          → Ending max f
          → Fate (
            some (record {
              job = stored.job;
              reservation_token = "";
              reserved_until = 0;
              failed_at = clock;
              last_error = normalize_error (text f);
            }),
            record {
              job_id = r.job.id;
              handler = r.job.handler;
              attempts = r.job.attempts;
              max_attempts = max;
              error = job_failed f;
            }
                ∷ [],
          )
