-- ===== src/JobQueue/Verdicts.antt =====
-- What executePersistent of backend/framework/jobs_persistent.go makes of a job of a FileJobStore,
-- branch by branch, against the ends that a job can come to.
use bridra.Common.{
  ◌≤◌, ℕ, ◌+◌, ◌≡◌, refl, Option, none, some, List, [], ◌∷◌, String, ltb, if◌then◌else◌, arith,
  Bool-cases, Option-cases, inl, inr,
}
use bridra.JobStore.Job.{JobReservation, FileStoredJob, normalize_error}
use bridra.JobStore.Operations.{released, failed}
use bridra.JobQueue.Executing.{Outcome, AttemptError, execute_attempt}
use bridra.JobQueue.Handlers.{HandlerEntry}
use bridra.JobQueue.Persistent.{
  Failure, handler_not_found, attempts_exceeded, payload_decoding_failed, attempt_failed,
  execution_failed, Report, report_of, job_failed,
}
use bridra.JobQueue.Fates.{
  Attempted, unhandled, over_limit, undecoded, last, Fate, removed, returned, marked_failed,
}
use bridra.JobQueue.FileCalls.{FileInput}

module _ (text : Failure → String) (i : FileInput) (now : ℕ) (r : JobReservation)
    (stored : FileStoredJob) where
  abbrev pub buried : ℕ → Failure → Option FileStoredJob × List Report
  buried max f =
      (some (failed i.clock (normalize_error (text f)) stored), report_of r max (job_failed f) ∷ [])

  -- The record that a job has after an attempt, and what is reported of it.
  abbrev pub settled : HandlerEntry → Option AttemptError → Option FileStoredJob × List Report
  settled h none = (none, [])
  settled h (some e) =
      if ltb r.job.attempts h.options.max_attempts
      then (
        some (
            released (now + h.options.retry_backoff) (normalize_error (text (attempt_failed e)))
              stored),
        [],
      )
      else (
        some (failed i.clock (normalize_error (text (execution_failed e))) stored),
        report_of r h.options.max_attempts (job_failed (execution_failed e)) ∷ [],
      )

  -- What becomes of a job whose payload has been read.
  abbrev pub verdict_on :
      HandlerEntry → (ℕ → Outcome) → Option ℕ → Option FileStoredJob × List Report
  verdict_on h outcome none = buried h.options.max_attempts payload_decoding_failed
  verdict_on h outcome (some value) = settled h (execute_attempt (outcome value))

  -- What becomes of a job.
  abbrev pub verdict : Option HandlerEntry → (ℕ → Outcome) → Option FileStoredJob × List Report
  verdict none outcome = buried 0 handler_not_found
  verdict (some h) outcome =
      if ltb h.options.max_attempts r.job.attempts
      then buried h.options.max_attempts attempts_exceeded
      else verdict_on h outcome (h.decode r.job.payload)

  settled-Fate :
      (h : HandlerEntry) (outcome : ℕ → Outcome) (value : ℕ)
      → r.job.attempts ≤ h.options.max_attempts
      → h.decode r.job.payload ≡ some value
      → Fate r
          (some h)
          outcome
          text
          i.clock
          now
          stored
          (settled h (execute_attempt (outcome value)))
  settled-Fate h outcome value inside read =
      let attempt : (result : Option AttemptError)
          → execute_attempt (outcome value) ≡ result
          → Attempted r (some h) outcome h result =
        λ result e. record {
          handled = refl;
          within = inside;
          value = value;
          decoded = read;
          attempted = e;
        } in
      elim (Option-cases (execute_attempt (outcome value))) [
        | inl done ↦ rw (done, settled) (removed h (attempt none done))
        | inr (e, failing) ↦ elim (Bool-cases (ltb r.job.attempts h.options.max_attempts)) [
          | inl early ↦
              rw (failing, early, settled)
                (returned h e (attempt (some e) failing) (ground (arith, early)))
          | inr late ↦
              rw (failing, late, settled)
                (marked_failed h.options.max_attempts (execution_failed e)
                  (last h e (attempt (some e) failing) (ground (arith, late, inside))))
        ]
      ]

  pub verdict-Fate :
      (entry : Option HandlerEntry) (outcome : ℕ → Outcome)
      → Fate r entry outcome text i.clock now stored (verdict entry outcome)
  verdict-Fate none outcome = marked_failed 0 handler_not_found (unhandled refl)
  verdict-Fate (some h) outcome = elim (Bool-cases (ltb h.options.max_attempts r.job.attempts)) [
    | inl over ↦
        rw (over, verdict)
          (marked_failed h.options.max_attempts attempts_exceeded
            (over_limit h refl (ground (arith, over))))
    | inr inside ↦
        rw (inside, verdict)
          (elim (Option-cases (h.decode r.job.payload)) [
            | inl e ↦
                rw (e, verdict_on)
                  (marked_failed h.options.max_attempts payload_decoding_failed
                    (undecoded h refl (ground (arith, inside)) e))
            | inr (value, e) ↦
                rw (e, verdict_on) (settled-Fate h outcome value (ground (arith, inside)) e)
          ])
  ]
