-- ===== src/JobQueue/Persistent.antt =====
-- The execution of a reserved job, backend/framework/jobs_persistent.go: executePersistent, with the
-- store's interface of backend/framework/job_store.go.
use bridra.Common.{
  ℕ, ◌+◌, Bool, true, false, Option, none, some, List, [], ◌∷◌, String, ltb, if◌then◌else◌,
}
use bridra.Common.Dict.{Dict, lookup}
use bridra.JobStore.Job.{Error, Result, ok, err, StoredJob, JobReservation}
use bridra.JobQueue.Executing.{Outcome, AttemptError, execute_attempt}
use bridra.JobQueue.Handlers.{HandlerEntry}

-- JobStore, on stores of a type S, where a call reads an input of a type I from outside.
pub record JobStore (S I : Type 0) : Type 0 where
  pub enqueue : I → StoredJob → S → Result (Unit {0}) × S
  pub reserve : I → ℕ → ℕ → S → Result JobReservation × S
  pub release : I → JobReservation → ℕ → String → S → Result (Unit {0}) × S
  pub complete : I → JobReservation → S → Result (Unit {0}) × S
  pub fail : I → JobReservation → String → S → Result (Unit {0}) × S

-- The errors of executePersistent: that of an attempt, and those that end a job.
pub data Failure : Type 0 where
  handler_not_found attempts_exceeded payload_decoding_failed : Failure
  attempt_failed execution_failed : AttemptError → Failure

pub data StoreOperation : Type 0 where
  reserving completing releasing : StoreOperation

pub data ReportError : Type 0 where
  job_failed : Failure → ReportError
  store_operation_failed : StoreOperation → Error → ReportError
  fail_failed : Failure → Error → ReportError

-- JobFailure
pub record Report : Type 0 where
  pub job_id : String
  pub handler : String
  pub attempts : ℕ
  pub max_attempts : ℕ
  pub error : ReportError

-- What executePersistent does: the store that it leaves, whether it called the handler, whether it
-- woke a worker, and what it reported.
pub record Ran (S : Type 0) : Type 0 where
  pub store : S
  pub called : Bool
  pub woken : Bool
  pub reports : List Report

abbrev pub report_of : JobReservation → ℕ → ReportError → Report
report_of r max error = record {
  job_id = r.job.id;
  handler = r.job.handler;
  attempts = r.job.attempts;
  max_attempts = max;
  error = error;
}

module _ {S : Type 0} (r : JobReservation) (max : ℕ) where
  abbrev pub after_fail : Bool → Failure → Result (Unit {0}) × S → Ran S
  after_fail called failure (ok u, s) = record {
    store = s;
    called = called;
    woken = false;
    reports = report_of r max (job_failed failure) ∷ [];
  }
  after_fail called failure (err e, s) = record {
    store = s;
    called = called;
    woken = false;
    reports = report_of r max (fail_failed failure e) ∷ [];
  }

  abbrev pub after_complete : Result (Unit {0}) × S → Ran S
  after_complete (ok u, s) = record { store = s; called = true; woken = false; reports = [] }
  after_complete (err e, s) = record {
    store = s;
    called = true;
    woken = false;
    reports = report_of r max (store_operation_failed completing e) ∷ [];
  }

  abbrev pub after_release : Result (Unit {0}) × S → Ran S
  after_release (ok u, s) = record { store = s; called = true; woken = true; reports = [] }
  after_release (err e, s) = record {
    store = s;
    called = true;
    woken = false;
    reports = report_of r max (store_operation_failed releasing e) ∷ [];
  }

module _ {S I : Type 0} (store : JobStore S I) (text : Failure → String) (i : I) (now : ℕ)
    (r : JobReservation) (s : S) where
  -- failPersistentReservation
  unfoldable pub fail_persistent_reservation : ℕ → Bool → Failure → Ran S
  fail_persistent_reservation max called failure =
      after_fail r max called failure (store.fail i r (text failure) s)

  -- executePersistent, after executeAttempt
  unfoldable pub settle_attempt : HandlerEntry → Option AttemptError → Ran S
  unfolding fail_persistent_reservation
  settle_attempt h none = after_complete r h.options.max_attempts (store.complete i r s)
  settle_attempt h (some e) =
      if ltb r.job.attempts h.options.max_attempts
      then after_release r h.options.max_attempts
          (store.release i r (now + h.options.retry_backoff) (text (attempt_failed e)) s)
      else fail_persistent_reservation h.options.max_attempts true (execution_failed e)

  unfoldable pub execute_with : (ℕ → Outcome) → HandlerEntry → Ran S
  unfolding settle_attempt fail_persistent_reservation
  execute_with outcome h =
      if ltb h.options.max_attempts r.job.attempts
      then fail_persistent_reservation h.options.max_attempts false attempts_exceeded
      else elim (h.decode r.job.payload) [
        | none ↦ fail_persistent_reservation h.options.max_attempts false payload_decoding_failed
        | some value ↦ settle_attempt h (execute_attempt (outcome value))
      ]

  -- executePersistent
  unfoldable pub execute_persistent : Dict HandlerEntry → (ℕ → Outcome) → Ran S
  unfolding execute_with fail_persistent_reservation
  execute_persistent handlers_by_name outcome = elim (lookup r.job.handler handlers_by_name) [
    | none ↦ fail_persistent_reservation 0 false handler_not_found
    | some h ↦ execute_with outcome h
  ]
