-- ===== src/JobQueue/Settling.antt =====
-- What becomes of a reserved job in a FileJobStore, backend/framework/jobs_persistent.go and
-- backend/framework/file_job_store.go.
use bridra.Common.{
  subst, sym, ℕ, ◌+◌, ◌≡◌, ◌≢◌, refl, ap, ◌∙◌, Bool, true, false, Option, none, some, List, [], ◌∷◌,
  String, ltb, arith, eq_iff, Bool-cases, Option-cases, inl, inr,
}
use bridra.Common.Dict.{Dict, lookup, lookup-delete, lookup-insert_self}
use bridra.JobStore.Job.{
  Result, ok, err, Context, JobReservation, FileStoredJob, Json, normalize_error, is_zero,
}
use bridra.JobStore.Log.{Event, complete, release, fail, Write, append}
use bridra.JobStore.Operations.{
  Store, release_job, complete_job, fail_job, finish_reservation, finish_record, ready, commit,
  put_or_delete, released, failed,
}
use bridra.JobQueue.Executing.{Outcome, AttemptError, execute_attempt}
use bridra.JobQueue.Handlers.{HandlerEntry}
use bridra.JobQueue.Persistent.{
  Failure, handler_not_found, attempts_exceeded, payload_decoding_failed, attempt_failed,
  execution_failed, Report, report_of, job_failed, Ran, after_fail, after_complete, after_release,
  execute_persistent, execute_with, settle_attempt, fail_persistent_reservation,
}
use bridra.JobQueue.Fates.{Fate}
use bridra.JobQueue.Verdicts.{settled, verdict_on, verdict, verdict-Fate}
use bridra.JobQueue.FileCalls.{FileInput, file_store}

not_zero : (n : ℕ) → n ≢ 0 → is_zero n ≡ false
not_zero n h = ground arith

-- What is found of a job after executePersistent, and what was reported.
abbrev pub job_after : JobReservation → Ran Store → Option FileStoredJob × List Report
job_after r ran = (lookup r.job.id ran.store.jobs, ran.reports)

module _ (json : Json Event) (text : Failure → String) (i : FileInput) (now : ℕ)
    (r : JobReservation) (s : Store) (stored : FileStoredJob)
    (hit : lookup r.job.id s.jobs ≡ some stored) (same : stored.reservation_token ≡ r.token)
    (named : r.job.id ≢ "") (drawn : r.token ≢ "") (opened : s.closed ≡ false)
    (written : i.write ≡ Write.written) where
  finished :
      (e : Event) (apply : FileStoredJob → Option FileStoredJob)
      → (finish_reservation json Context.live i.write r e apply s).0 ≡ ok tt
  unfolding finish_reservation ready finish_record commit append
  finished e apply = ground (
    arith,
    hit,
    same,
    opened,
    written,
    eq_iff r.job.id "",
    eq_iff r.token "",
    eq_iff stored.reservation_token r.token,
  )

  finished_jobs :
      (e : Event) (apply : FileStoredJob → Option FileStoredJob)
      → (finish_reservation json Context.live i.write r e apply s).1.jobs
        ≡ put_or_delete r.job.id (apply stored) s.jobs
  unfolding finish_reservation ready finish_record commit append
  finished_jobs e apply = ground (
    arith,
    hit,
    same,
    opened,
    written,
    eq_iff r.job.id "",
    eq_iff r.token "",
    eq_iff stored.reservation_token r.token,
  )

  placed_or_gone :
      (o : Option FileStoredJob) → lookup r.job.id (put_or_delete r.job.id o s.jobs) ≡ o
  placed_or_gone none =
      ground (arith, lookup-delete r.job.id r.job.id s.jobs, eq_iff r.job.id r.job.id)
  placed_or_gone (some x) = lookup-insert_self r.job.id x s.jobs

  after_complete-ok :
      (max : ℕ) (o : Result (Unit {0}) × Store)
      → o.0 ≡ ok tt
      → job_after r (after_complete r max o) ≡ (lookup r.job.id o.1.jobs, [])
  after_complete-ok max (ok u, t) h = refl
  after_complete-ok max (err e, t) h = absurd (ground arith)

  after_release-ok :
      (max : ℕ) (o : Result (Unit {0}) × Store)
      → o.0 ≡ ok tt
      → job_after r (after_release r max o) ≡ (lookup r.job.id o.1.jobs, [])
  after_release-ok max (ok u, t) h = refl
  after_release-ok max (err e, t) h = absurd (ground arith)

  after_fail-ok :
      (max : ℕ) (called : Bool) (f : Failure) (o : Result (Unit {0}) × Store)
      → o.0 ≡ ok tt
      → job_after r (after_fail r max called f o)
        ≡ (lookup r.job.id o.1.jobs, report_of r max (job_failed f) ∷ [])
  after_fail-ok max called f (ok u, t) h = refl
  after_fail-ok max called f (err e, t) h = absurd (ground arith)

  -- What is found of the job after its reservation is finished.
  found_after :
      (e : Event) (apply : FileStoredJob → Option FileStoredJob)
      → lookup r.job.id (finish_reservation json Context.live i.write r e apply s).1.jobs
        ≡ apply stored
  found_after e apply = ap (lookup r.job.id) (finished_jobs e apply) ∙ placed_or_gone (apply stored)

  abbrev finish : Event → (FileStoredJob → Option FileStoredJob) → Result (Unit {0}) × Store
  finish e apply = finish_reservation json Context.live i.write r e apply s

  completes-settled :
      (h : HandlerEntry)
      → job_after r (settle_attempt (file_store json) text i now r s h none) ≡ (none, [])
  unfolding settle_attempt file_store complete_job
  completes-settled h =
      let e = complete r.job.id r.token in
      let gone : FileStoredJob → Option FileStoredJob = λ _. none in
      after_complete-ok h.options.max_attempts (finish e gone) (finished e gone)
      ∙ ap (λ (x : Option FileStoredJob). (x, [])) (found_after e gone)

  releases-settled :
      (h : HandlerEntry) (max at : ℕ) (message : String)
      → at ≢ 0
      → job_after r (after_release r max ((file_store json).release i r at message s))
        ≡ (some (released at (normalize_error message) stored), [])
  unfolding file_store release_job
  releases-settled h max at message timed =
      let e = release r.job.id r.token at (normalize_error message) in
      let back : FileStoredJob → Option FileStoredJob =
        λ x. some (released at (normalize_error message) x) in
      rw (not_zero at timed) (
        after_release-ok max (finish e back) (finished e back)
        ∙ ap (λ (x : Option FileStoredJob). (x, [])) (found_after e back))

  fails-settled :
      (max : ℕ) (called : Bool) (f : Failure)
      → job_after r (fail_persistent_reservation (file_store json) text i now r s max called f) ≡ (
        some (failed i.clock (normalize_error (text f)) stored),
        report_of r max (job_failed f) ∷ [],
      )
  unfolding fail_persistent_reservation file_store fail_job
  fails-settled max called f =
      let e = fail r.job.id r.token (normalize_error (text f)) i.clock in
      let dead : FileStoredJob → Option FileStoredJob =
        λ x. some (failed i.clock (normalize_error (text f)) x) in
      after_fail-ok max called f (finish e dead) (finished e dead)
      ∙ ap (λ (x : Option FileStoredJob). (x, report_of r max (job_failed f) ∷ []))
          (found_after e dead)

  settle_attempt-settled :
      (h : HandlerEntry) (result : Option AttemptError)
      → now ≢ 0
      → job_after r (settle_attempt (file_store json) text i now r s h result)
        ≡ settled text i now r stored h result
  unfolding settle_attempt
  settle_attempt-settled h none timed = completes-settled h
  settle_attempt-settled h (some e) timed =
      elim (Bool-cases (ltb r.job.attempts h.options.max_attempts)) [
        | inl early ↦
            rw (early, settled)
              (releases-settled h h.options.max_attempts (now + h.options.retry_backoff)
                (text (attempt_failed e)) (omega (arith, timed)))
        | inr late ↦
            rw (late, settled) (fails-settled h.options.max_attempts true (execution_failed e))
      ]

  execute_with-verdict :
      (h : HandlerEntry) (outcome : ℕ → Outcome)
      → now ≢ 0
      → job_after r (execute_with (file_store json) text i now r s outcome h)
        ≡ verdict text i now r stored (some h) outcome
  unfolding execute_with
  execute_with-verdict h outcome timed =
      elim (Bool-cases (ltb h.options.max_attempts r.job.attempts)) [
        | inl beyond ↦
            rw (beyond, execute_with, verdict)
              (fails-settled h.options.max_attempts false attempts_exceeded)
        | inr inside ↦
            rw (inside, execute_with, verdict)
              (elim (Option-cases (h.decode r.job.payload)) [
                | inl unread ↦
                    rw (unread, verdict_on)
                      (fails-settled h.options.max_attempts false payload_decoding_failed)
                | inr (value, read) ↦
                    rw (read, verdict_on)
                      (settle_attempt-settled h (execute_attempt (outcome value)) timed)
              ])
      ]

  execute_persistent-verdict :
      (handlers : Dict HandlerEntry) (outcome : ℕ → Outcome)
      → now ≢ 0
      → job_after r (execute_persistent (file_store json) text i now r s handlers outcome)
        ≡ verdict text i now r stored (lookup r.job.handler handlers) outcome
  unfolding execute_persistent
  execute_persistent-verdict handlers outcome timed =
      elim (Option-cases (lookup r.job.handler handlers)) [
        | inl e ↦ rw (e, execute_persistent, verdict) (fails-settled 0 false handler_not_found)
        | inr (h, e) ↦ rw (e, execute_persistent) (execute_with-verdict h outcome timed)
      ]

  -- A reserved job that bears the reservation's token, in an open FileJobStore whose write goes well,
  -- at a time past zero: an attempt that succeeds removes the job. One that fails returns it with its
  -- error, due after the backoff, while the handler has attempts left. Otherwise the job is marked as
  -- failed at the time of the clock, with the failure's error, and reported once: after the last
  -- attempt, beyond it, without a handler of its name, and where its payload cannot be read.
  pub execute_persistent_settles :
      (handlers : Dict HandlerEntry) (outcome : ℕ → Outcome)
      → now ≢ 0
      → Fate r
          (lookup r.job.handler handlers)
          outcome
          text
          i.clock
          now
          stored
          (job_after r (execute_persistent (file_store json) text i now r s handlers outcome))
  execute_persistent_settles handlers outcome timed =
      subst (Fate r (lookup r.job.handler handlers) outcome text i.clock now stored)
        (sym (execute_persistent-verdict handlers outcome timed))
        (verdict-Fate text i now r stored (lookup r.job.handler handlers) outcome)
