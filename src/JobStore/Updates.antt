-- ===== src/JobStore/Updates.antt =====
-- What a call may do to the map of backend/framework/file_job_store.go, as a relation between an
-- event and the map after it, and that each operation does nothing else.
mod Effects
unfoldable pub use Effects.*
use bridra.Common.{
  ℕ, ◌+◌, ◌<◌, ◌≡◌, ◌≢◌, refl, inl, inr, Bool, true, false, Option, none, some, String, arith,
  length, leb, Bool-cases, eq_iff, ◌=s=◌, not, ◌||◌, if◌then◌else◌,
}
use bridra.Common.Dict.{lookup, insert, delete}
use bridra.JobStore.Job.{
  Result, ok, err, Context, StoredJob, FileStoredJob, Json, JobReservation, fresh_record,
  valid_job_identifier, normalize_error, validate_stored_job, is_zero,
}
use bridra.JobStore.Log.{
  Event, enqueue, reserve, release, complete, fail, retry, forget, Write, Jobs,
}
use bridra.JobStore.Operations.{
  Store, select, commit, eligible, ready, reserved, released, failed, retried, close, enqueue_job,
  reserve_job, release_job, complete_job, fail_job, retry_failed, forget_failed, finish_reservation,
  put_or_delete, admit, reserve_record, finish_record, retry_record, forget_record, answer,
}
use bridra.JobStore.Selection.{IsSoundMap, select-lookup}
use bridra.JobStore.History.{
  Call, enqueues, reserves, releases, completes, fails, retries, forgets, closes, step,
}

module _ (P : Event → Type 0) (json : Json Event) (s : Store) (w : Write) where
  commits :
      {e : Event} {jobs : Jobs}
      → P e
      → Update json s e jobs
      → Leaves P json s w (commit json w e jobs s)
  commits p u = record { effect = changed p u }

  admit-Leaves :
      (job : StoredJob)
      → P (enqueue (some job))
      → validate_stored_job json.valid s.max_payload_bytes job ≡ true
      → Leaves P json s w (admit json w job s)
  unfolding admit
  admit-Leaves job p v =
      if-Leaves (leb s.max_jobs (length s.jobs)) (λ _. keeps _)
        λ room.
          found-Leaves (lookup job.id s.jobs) (λ e. commits p (admitted job v (ground arith) e))
            (λ _ _. keeps _)

  enqueue-Leaves :
      (ctx : Context) (job : StoredJob)
      → P (enqueue (some job))
      → Leaves P json s w (enqueue_job json ctx w job s)
  unfolding enqueue_job
  enqueue-Leaves Context.nil job p = keeps _
  enqueue-Leaves Context.done job p =
      if-Leaves (not (validate_stored_job json.valid s.max_payload_bytes job)) (λ _. keeps _)
        (λ _. keeps _)
  enqueue-Leaves Context.live job p =
      if-Leaves (not (validate_stored_job json.valid s.max_payload_bytes job)) (λ _. keeps _)
        λ v. ready-Leaves (admit-Leaves job p (ground arith))

  finish_record-Leaves :
      (r : JobReservation) (e : Event) (apply : FileStoredJob → Option FileStoredJob)
      → P e
      → ((old : FileStoredJob)
          → lookup r.job.id s.jobs ≡ some old
          → old.reservation_token ≡ r.token
          → Update json s e (put_or_delete r.job.id (apply old) s.jobs))
      → Leaves P json s w (finish_record json w r e apply s)
  unfolding finish_record
  finish_record-Leaves r e apply p h =
      found-Leaves (lookup r.job.id s.jobs) (λ _. keeps _)
        λ old hit.
          if-Leaves (not (old.reservation_token =s= r.token)) (λ _. keeps _)
            λ same. commits p (h old hit (ground (arith, eq_iff old.reservation_token r.token)))

  finish-Leaves :
      (ctx : Context) (r : JobReservation) (e : Event)
      (apply : FileStoredJob → Option FileStoredJob)
      → P e
      → (r.token ≢ ""
          → (old : FileStoredJob) → lookup r.job.id s.jobs ≡ some old
          → old.reservation_token ≡ r.token
          → Update json s e (put_or_delete r.job.id (apply old) s.jobs))
      → Leaves P json s w (finish_reservation json ctx w r e apply s)
  unfolding finish_reservation
  finish-Leaves Context.nil r e apply p h = keeps _
  finish-Leaves Context.done r e apply p h =
      if-Leaves (r.job.id =s= "" || r.token =s= "") (λ _. keeps _) (λ _. keeps _)
  finish-Leaves Context.live r e apply p h =
      if-Leaves (r.job.id =s= "" || r.token =s= "") (λ _. keeps _)
        λ named.
          ready-Leaves (finish_record-Leaves r e apply p (h (ground (arith, eq_iff r.token ""))))

  release-Leaves :
      (ctx : Context) (r : JobReservation) (at : ℕ) (message : String)
      → P (release r.job.id r.token at (normalize_error message))
      → Leaves P json s w (release_job json ctx w r at message s)
  unfolding release_job
  release-Leaves ctx r at message p =
      if-Leaves (is_zero at) (λ _. keeps _)
        λ timed. finish-Leaves ctx r _ _ p λ named old hit same.
          returned r.job.id r.token message at old hit same named (ground arith)

  complete-Leaves :
      (ctx : Context) (r : JobReservation)
      → P (complete r.job.id r.token)
      → Leaves P json s w (complete_job json ctx w r s)
  unfolding complete_job
  complete-Leaves ctx r p =
      finish-Leaves ctx r _ _ p λ named old hit same. completed r.job.id r.token old hit same named

  fail-Leaves :
      (ctx : Context) (at : ℕ) (r : JobReservation) (message : String)
      → at ≢ 0
      → P (fail r.job.id r.token (normalize_error message) at)
      → Leaves P json s w (fail_job json ctx w at r message s)
  unfolding fail_job
  fail-Leaves ctx at r message timed p =
      finish-Leaves ctx r _ _ p
        λ named old hit same. buried r.job.id r.token message at old hit same named timed

  retry_record-Leaves :
      (id : String) (at : ℕ)
      → at ≢ 0
      → ((r : FileStoredJob) → lookup id s.jobs ≡ some r → r.failed_at ≢ 0 → P (retry id at))
      → Leaves P json s w (retry_record json w id at s)
  unfolding retry_record
  retry_record-Leaves id at timed p =
      found-Leaves (lookup id s.jobs) (λ _. keeps _)
        λ r hit.
          if-Leaves (is_zero r.failed_at) (λ _. keeps _)
            λ dead. commits (p r hit (ground arith)) (revived id at r hit (ground arith) timed)

  retry-Leaves :
      (ctx : Context) (id : String) (at : ℕ)
      → ((r : FileStoredJob) → lookup id s.jobs ≡ some r → r.failed_at ≢ 0 → P (retry id at))
      → Leaves P json s w (retry_failed json ctx w id at s)
  unfolding retry_failed
  retry-Leaves Context.nil id at p = keeps _
  retry-Leaves Context.done id at p =
      if-Leaves (id =s= "" || is_zero at) (λ _. keeps _) (λ _. keeps _)
  retry-Leaves Context.live id at p =
      if-Leaves (id =s= "" || is_zero at) (λ _. keeps _)
        λ timed. ready-Leaves (retry_record-Leaves id at (ground arith) p)

  forget_record-Leaves :
      (id : String)
      → ((r : FileStoredJob) → lookup id s.jobs ≡ some r → r.failed_at ≢ 0 → P (forget id))
      → Leaves P json s w (forget_record json w id s)
  unfolding forget_record
  forget_record-Leaves id p =
      found-Leaves (lookup id s.jobs) (λ _. keeps _)
        λ r hit.
          if-Leaves (is_zero r.failed_at) (λ _. keeps _)
            λ dead. commits (p r hit (ground arith)) (forgotten id r hit (ground arith))

  forget-Leaves :
      (ctx : Context) (id : String)
      → ((r : FileStoredJob) → lookup id s.jobs ≡ some r → r.failed_at ≢ 0 → P (forget id))
      → Leaves P json s w (forget_failed json ctx w id s)
  unfolding forget_failed
  forget-Leaves Context.nil id p = keeps _
  forget-Leaves Context.done id p = if-Leaves (id =s= "") (λ _. keeps _) (λ _. keeps _)
  forget-Leaves Context.live id p =
      if-Leaves (id =s= "") (λ _. keeps _) λ _. ready-Leaves (forget_record-Leaves id p)

  reserve_record-Leaves :
      (token : String) (until : ℕ) (r : FileStoredJob)
      → lookup r.job.id s.jobs ≡ some r
      → valid_job_identifier token ≡ true
      → until ≢ 0
      → P (reserve r.job.id token until (r.job.attempts + 1))
      → Leaves P json s w (reserve_record json w (some token) until r s)
  unfolding reserve_record
  reserve_record-Leaves token until r hit v timed p =
      answer-Leaves (reserved token until r) _ (commits p (leased r token until hit v timed))

  reserve-Leaves :
      (ctx : Context) (token : Option String) (now lease : ℕ)
      → IsSoundMap s.jobs
      → IsSoundCall (reserves ctx token now lease)
      → Permits P s (reserves ctx token now lease)
      → Leaves P json s w (reserve_job json ctx w token now lease s)
  unfolding reserve_job
  reserve-Leaves Context.nil token now lease h v p = keeps _
  reserve-Leaves Context.done token now lease h v p =
      if-Leaves (is_zero now || is_zero lease) (λ _. keeps _) (λ _. keeps _)
  reserve-Leaves Context.live none now lease h v p =
      if-Leaves (is_zero now || is_zero lease) (λ _. keeps _)
        λ timed. ready-Leaves (found-Leaves (select now s.jobs) (λ _. keeps _) (λ r hit. keeps _))
  reserve-Leaves Context.live (some token) now lease h v p =
      if-Leaves (is_zero now || is_zero lease) (λ _. keeps _)
        λ timed. ready-Leaves (
          found-Leaves (select now s.jobs) (λ _. keeps _)
            λ r hit.
              reserve_record-Leaves token (now + lease) r (select-lookup now s.jobs r h hit).0 v
                (ground arith)
                (p r (select-lookup now s.jobs r h hit).0 (select-lookup now s.jobs r h hit).1))

-- On a map whose records stand once under their own identifiers, with a valid random token and a
-- clock past the zero time, every call leaves the store as it was, or closed, or with one update of
-- the relation committed, for an event of which P holds if the call permits only such events.
pub step-Effect :
    (P : Event → Type 0) (json : Json Event) (s : Store) (w : Write) (c : Call)
    → IsSoundMap s.jobs
    → IsSoundCall c
    → Permits P s c
    → Effect P json s w (step json s w c)
unfolding step
step-Effect P json s w (enqueues ctx job) h v p = (enqueue-Leaves P json s w ctx job p).effect
step-Effect P json s w (reserves ctx token now lease) h v p =
    (reserve-Leaves P json s w ctx token now lease h v p).effect
step-Effect P json s w (releases ctx r at message) h v p =
    (release-Leaves P json s w ctx r at message p).effect
step-Effect P json s w (completes ctx r) h v p = (complete-Leaves P json s w ctx r p).effect
step-Effect P json s w (fails ctx at r message) h v p =
    (fail-Leaves P json s w ctx at r message v p).effect
step-Effect P json s w (retries ctx id at) h v p = (retry-Leaves P json s w ctx id at p).effect
step-Effect P json s w (forgets ctx id) h v p = (forget-Leaves P json s w ctx id p).effect
step-Effect P json s w closes h v p = shut
