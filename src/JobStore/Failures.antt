-- ===== src/JobStore/Failures.antt =====
-- Failed jobs of backend/framework/file_job_store.go: what Fail and RetryFailed do to a job.
use mathlib.Core.Path.{subst}
use mathlib.Core.Option.{some-injective}
use bridra.Common.{ℕ, ◌≡◌, ◌≢◌, refl, sym, ap, ◌∙◌, false, some, String, arith, leb}
use bridra.Common.Dict.{lookup, insert, lookup-insert_self}
use bridra.JobStore.Job.{Result, ok, Context, JobReservation, FileStoredJob, Json, normalize_error}
use bridra.JobStore.Log.{Event, Write, Jobs, append, add_line}
use bridra.JobStore.Operations.{
  Store, commit, eligible, fail_job, retry_failed, ready, finish_record, finish_reservation,
  retry_record, failed, retried,
}
use bridra.JobStore.Reserving.{line_of}

pub commit-ok :
    (json : Json Event) (s t : Store) (w : Write) (e : Event) (jobs : Jobs)
    → commit json w e jobs s ≡ (ok tt, t)
    → t ≡ record s { jobs = jobs; file = add_line s.file (line_of json e) }
unfolding commit append
commit-ok json s t Write.unencodable e jobs h = absurd (ground arith)
commit-ok json s t Write.stopped_inside e jobs h = absurd (ground arith)
commit-ok json s t Write.stopped_before e jobs h = absurd (ground arith)
commit-ok json s t Write.unsynced e jobs h = absurd (ground arith)
commit-ok json s t Write.written e jobs h = sym (ap (λ (o : Result (Unit {0}) × Store). o.1) h)

module _ (json : Json Event) (s t : Store) (w : Write) where
  fail_job-ok :
      (ctx : Context) (at : ℕ) (res : JobReservation) (message : String)
      → fail_job json ctx w at res message s ≡ (ok tt, t)
      → (r : FileStoredJob) × (lookup res.job.id s.jobs ≡ some r)
        × (t.jobs ≡ insert res.job.id (failed at (normalize_error message) r) s.jobs)
  unfolding fail_job finish_reservation ready finish_record
  fail_job-ok Context.nil at res message h = absurd (ground arith)
  fail_job-ok Context.done at res message h = absurd (ground arith)
  fail_job-ok Context.live at res message h = ground arith

  retry_failed-ok :
      (ctx : Context) (id : String) (at : ℕ)
      → retry_failed json ctx w id at s ≡ (ok tt, t)
      → (r : FileStoredJob) × (lookup id s.jobs ≡ some r)
        × (r.failed_at ≢ 0)
        × (t.jobs ≡ insert id (retried at r) s.jobs)
  unfolding retry_failed ready retry_record
  retry_failed-ok Context.nil id at h = absurd (ground arith)
  retry_failed-ok Context.done id at h = absurd (ground arith)
  retry_failed-ok Context.live id at h = ground arith

module _ (json : Json Event) (s t u : Store) (w v : Write) (ctx ctx' : Context)
    (res : JobReservation) (at again : ℕ) (message : String) (timed : at ≢ 0)
    (failed_now : fail_job json ctx w at res message s ≡ (ok tt, t))
    (retried_now : retry_failed json ctx' v res.job.id again t ≡ (ok tt, u)) where
  -- A job that a successful Fail has marked, at a time past zero, is eligible at no time; after a
  -- RetryFailed that succeeds on the store which Fail left it is eligible exactly from the new due
  -- time on, with no attempts counted and no error kept.
  pub fail_retry_eligible :
      (now : ℕ)
      → (r r' : FileStoredJob) × (lookup res.job.id t.jobs ≡ some r)
        × (eligible now r ≡ false)
        × (lookup res.job.id u.jobs ≡ some r')
        × (eligible now r' ≡ leb again now)
        × (r'.job.attempts ≡ 0)
        × (r'.last_error ≡ "")
  unfolding eligible
  fail_retry_eligible now =
      let (r, hit, stored) = fail_job-ok json s t w ctx at res message failed_now in
      let (r', hit', dead, stored') =
        retry_failed-ok json t u v ctx' res.job.id again retried_now in
      let f : FileStoredJob = failed at (normalize_error message) r in
      let at_t : lookup res.job.id t.jobs ≡ some f =
        rw stored (lookup-insert_self res.job.id f s.jobs) in
      let same : r' ≡ f = some-injective _ _ (sym hit' ∙ at_t) in
      let at_u : lookup res.job.id u.jobs ≡ some (retried again f) = rw stored' (
        subst
          (λ x.
            lookup res.job.id (insert res.job.id (retried again x) t.jobs) ≡ some (retried again f))
          (sym same) (lookup-insert_self res.job.id (retried again f) t.jobs)) in
      (f, retried again f, at_t, ground arith, at_u, ground arith, refl, refl)
