-- ===== src/JobStore/Operations.antt =====
-- The operations of backend/framework/file_job_store.go. What the operation reads from outside is
-- an argument: the context, the time, the random token, and the outcome of the write.
mod Records
unfoldable pub use Records.*
use bridra.Common.{
  ℕ, ◌+◌, Bool, true, false, not, ◌&&◌, ◌||◌, Option, none, some, List, [], ◌∷◌, String, ltb, leb,
  ◌==◌, ◌=s=◌, if◌then◌else◌, length, keep_if, map, head?,
}
use bridra.Common.Texts.{codes, before}
use bridra.Common.Dict.{lookup, insert, delete}
use bridra.JobStore.Job.{
  context_unavailable, context_done, store_closed, store_empty, store_full, store_conflict,
  reservation_invalid, operation_failed, Result, ok, err, Context, nil, done, StoredJob,
  JobReservation, FailedStoredJob, FileStoredJob, Json, fresh_record, is_zero, normalize_error,
  validate_stored_job,
}
use bridra.JobStore.Log.{
  Event, enqueue, reserve, release, complete, fail, retry, forget, File, Write, Jobs, append,
  replay,
}

module _ (json : Json Event) where
  abbrev settle : Store → Jobs → Result (Unit {0}) × File → Result (Unit {0}) × Store
  settle store jobs (ok u, file) = (ok u, record store { file = file; jobs = jobs })
  settle store jobs (err e, file) = (err e, record store { file = file })

  -- Append the event, and change the map only if that went well.
  unfoldable pub commit : Write → Event → Jobs → Store → Result (Unit {0}) × Store
  commit write event jobs store = settle store jobs (append json write event store.file)

  unfoldable pub admit : Write → StoredJob → Store → Result (Unit {0}) × Store
  unfolding commit
  admit write job store =
      if leb store.max_jobs (length store.jobs)
      then (err store_full, store)
      else elim (lookup job.id store.jobs) [
        | some old ↦ (err store_conflict, store)
        | none ↦
            commit write (enqueue (some job)) (insert job.id (fresh_record job) store.jobs) store
      ]

  -- FileJobStore.Enqueue
  unfoldable pub enqueue_job : Context → Write → StoredJob → Store → Result (Unit {0}) × Store
  unfolding ready admit
  enqueue_job nil write job store = (err context_unavailable, store)
  enqueue_job ctx write job store =
      if not (validate_stored_job json.valid store.max_payload_bytes job)
      then (err store_conflict, store)
      else elim (ready ctx store) [ err e ↦ (err e, store) | ok u ↦ admit write job store ]

  abbrev pub answer : FileStoredJob → Result (Unit {0}) × Store → Result JobReservation × Store
  answer r (ok u, store) = (ok (reservation_of r), store)
  answer r (err e, store) = (err e, store)

  unfoldable pub reserve_record :
      Write → Option String → ℕ → FileStoredJob → Store → Result JobReservation × Store
  unfolding commit
  reserve_record write none until r store = (err operation_failed, store)
  reserve_record write (some token) until r store = answer (reserved token until r) (
      commit write (reserve r.job.id token until (r.job.attempts + 1))
        (insert r.job.id (reserved token until r) store.jobs) store)

  -- FileJobStore.Reserve; no token means that the random source failed
  unfoldable pub reserve_job :
      Context → Write → Option String → ℕ → ℕ → Store → Result JobReservation × Store
  unfolding ready reserve_record
  reserve_job nil write token now lease store = (err context_unavailable, store)
  reserve_job ctx write token now lease store =
      if is_zero now || is_zero lease
      then (err reservation_invalid, store)
      else elim (ready ctx store) [
        | err e ↦ (err e, store)
        | ok u ↦ elim (select now store.jobs) [
          | none ↦ (err store_empty, store)
          | some r ↦ reserve_record write token (now + lease) r store
        ]
      ]

  unfoldable pub finish_record :
      Write
      → JobReservation
      → Event
      → (FileStoredJob → Option FileStoredJob)
      → Store
      → Result (Unit {0}) × Store
  unfolding commit
  finish_record write reservation event apply store = elim (lookup reservation.job.id store.jobs) [
    | none ↦ (err reservation_invalid, store)
    | some r ↦
        if not (r.reservation_token =s= reservation.token)
        then (err reservation_invalid, store)
        else commit write event (put_or_delete reservation.job.id (apply r) store.jobs) store
  ]

  -- FileJobStore.finishReservation
  unfoldable pub finish_reservation :
      Context
      → Write
      → JobReservation
      → Event
      → (FileStoredJob → Option FileStoredJob)
      → Store
      → Result (Unit {0}) × Store
  unfolding ready finish_record
  finish_reservation nil write reservation event apply store = (err context_unavailable, store)
  finish_reservation ctx write reservation event apply store =
      if reservation.job.id =s= "" || reservation.token =s= ""
      then (err reservation_invalid, store)
      else elim (ready ctx store) [
        | err e ↦ (err e, store)
        | ok u ↦ finish_record write reservation event apply store
      ]

  -- FileJobStore.Release
  unfoldable pub release_job :
      Context → Write → JobReservation → ℕ → String → Store → Result (Unit {0}) × Store
  unfolding finish_reservation
  release_job ctx write reservation available_at message store =
      if is_zero available_at
      then (err reservation_invalid, store)
      else finish_reservation ctx write reservation
          (release reservation.job.id reservation.token available_at (normalize_error message))
          (λ r. some (released available_at (normalize_error message) r)) store

  -- FileJobStore.Complete
  unfoldable pub complete_job : Context → Write → JobReservation → Store → Result (Unit {0}) × Store
  unfolding finish_reservation
  complete_job ctx write reservation store =
      finish_reservation ctx write reservation (complete reservation.job.id reservation.token)
        (λ r. none) store

  -- FileJobStore.Fail, at the time that time.Now returns
  unfoldable pub fail_job :
      Context → Write → ℕ → JobReservation → String → Store → Result (Unit {0}) × Store
  unfolding finish_reservation
  fail_job ctx write failed_at reservation message store =
      finish_reservation ctx write reservation
        (fail reservation.job.id reservation.token (normalize_error message) failed_at)
        (λ r. some (failed failed_at (normalize_error message) r)) store

  unfoldable pub retry_record : Write → String → ℕ → Store → Result (Unit {0}) × Store
  unfolding commit
  retry_record write id available_at store = elim (lookup id store.jobs) [
    | none ↦ (err store_conflict, store)
    | some r ↦
        if is_zero r.failed_at
        then (err store_conflict, store)
        else commit write (retry id available_at) (insert id (retried available_at r) store.jobs)
            store
  ]

  -- FileJobStore.RetryFailed
  unfoldable pub retry_failed : Context → Write → String → ℕ → Store → Result (Unit {0}) × Store
  unfolding ready retry_record
  retry_failed nil write id available_at store = (err context_unavailable, store)
  retry_failed ctx write id available_at store =
      if id =s= "" || is_zero available_at
      then (err store_conflict, store)
      else elim (ready ctx store) [
        | err e ↦ (err e, store)
        | ok u ↦ retry_record write id available_at store
      ]

  unfoldable pub forget_record : Write → String → Store → Result (Unit {0}) × Store
  unfolding commit
  forget_record write id store = elim (lookup id store.jobs) [
    | none ↦ (err store_conflict, store)
    | some r ↦
        if is_zero r.failed_at
        then (err store_conflict, store)
        else commit write (forget id) (delete id store.jobs) store
  ]

  -- FileJobStore.ForgetFailed
  unfoldable pub forget_failed : Context → Write → String → Store → Result (Unit {0}) × Store
  unfolding ready forget_record
  forget_failed nil write id store = (err context_unavailable, store)
  forget_failed ctx write id store =
      if id =s= ""
      then (err store_conflict, store)
      else elim (ready ctx store) [ err e ↦ (err e, store) | ok u ↦ forget_record write id store ]

  -- NewFileJobStore on a log file and its normalized limits: the replay, and the unfinished text cut
  -- off.
  unfoldable pub open_store : ℕ → ℕ → File → Result Store
  open_store max_jobs max_payload_bytes file =
      elim (replay json.valid max_payload_bytes [] file.lines) [
        | err e ↦ err e
        | ok jobs ↦ ok (record {
          max_jobs = max_jobs;
          max_payload_bytes = max_payload_bytes;
          jobs = jobs;
          closed = false;
          file = record file { partial = false };
        })
      ]

-- What FileJobStore.Close does to the store, whether the file closes without an error or not.
unfoldable pub close : Store → Store
close store = record store { closed = true }

abbrev failed_view : FileStoredJob → FailedStoredJob
failed_view r = record { job = r.job; failed_at = r.failed_at; error = r.last_error }

unfoldable pub fails_before : FailedStoredJob → FailedStoredJob → Bool
fails_before a b =
    if not (a.failed_at == b.failed_at)
    then ltb a.failed_at b.failed_at
    else before (codes a.job.id) (codes b.job.id)

-- FileJobStore.FailedJobs
unfoldable pub failed_jobs : Store → List FailedStoredJob
unfolding sort_slice fails_before
failed_jobs store =
    sort_slice fails_before
      (map failed_view (keep_if (λ r. not (is_zero r.failed_at)) (values store.jobs)))
