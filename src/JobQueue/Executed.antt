-- ===== src/JobQueue/Executed.antt =====
-- What the execution of a reserved job leaves, backend/framework/jobs_persistent.go.
use bridra.Common.{
  ℕ, ◌+◌, ◌≤◌, ◌≡◌, refl, sym, Bool, true, false, ◌⊎◌, Option, none, some, String, ltb, arith, ◌∙◌,
  inl, inr, if_cases, Option-cases,
}
use bridra.Common.Dict.{Dict, lookup}
use bridra.JobStore.Job.{Result, ok, err, JobReservation}
use bridra.JobQueue.Executing.{Outcome, AttemptError, execute_attempt}
use bridra.JobQueue.Handlers.{HandlerEntry}
use bridra.JobQueue.Persistent.{
  JobStore, Failure, Ran, after_fail, after_complete, after_release, fail_persistent_reservation,
  settle_attempt, execute_with, execute_persistent, attempt_failed, execution_failed,
  payload_decoding_failed, attempts_exceeded, handler_not_found,
}
use bridra.JobQueue.StoreLaws.{IsJobStore, Ages}

module _ {S I : Type 0} (store : JobStore S I) (laws : IsJobStore store) (r : JobReservation)
    (s : S) (handlers : Dict HandlerEntry) where
  -- What the execution of a reservation leaves, for every job; it calls a handler only where the
  -- reservation's attempt is among those that the handler has.
  pub record Executes (ran : Ran S) : Type 0 where
    pub good : laws.IsGood ran.store
    pub ages :
        (id : String)
        → (laws.attempts id ran.store ≡ laws.attempts id s) ⊎ (laws.attempts id ran.store ≡ none)
    pub within :
        ran.called ≡ true
        → (h : HandlerEntry) × (lookup r.job.handler handlers ≡ some h)
          × (r.job.attempts ≤ h.options.max_attempts)

module _ {S I : Type 0} (store : JobStore S I) (laws : IsJobStore store) (text : Failure → String)
    (i : I) (now : ℕ) (r : JobReservation) (s : S) (handlers : Dict HandlerEntry)
    (good : laws.IsGood s) (sound : laws.IsSound i) where
  abbrev IsRun : Ran S → Type 0
  IsRun = Executes store laws r s handlers

  -- The handler that a call may be of.
  abbrev Allowed : Bool → Type 0
  Allowed called =
      called ≡ true
      → (h : HandlerEntry) × (lookup r.job.handler handlers ≡ some h)
        × (r.job.attempts ≤ h.options.max_attempts)

  IsRun-of :
      (ran : Ran S) (o : Result (Unit {0}) × S)
      → ran.store ≡ o.1
      → laws.IsGood o.1
      → ((id : String) → Ages laws.attempts id s o)
      → Allowed ran.called
      → IsRun ran
  IsRun-of ran o same g ages allowed = record {
    good = rw same g;
    ages = λ id. rw same (ages id);
    within = allowed;
  }

  after_fail-store :
      (max : ℕ) (called : Bool) (f : Failure) (o : Result (Unit {0}) × S)
      → ((after_fail r max called f o).store ≡ o.1)
        × ((after_fail r max called f o).called ≡ called)
  after_fail-store max called f (ok u, t) = (refl, refl)
  after_fail-store max called f (err e, t) = (refl, refl)

  after_complete-store :
      (max : ℕ) (o : Result (Unit {0}) × S) → (after_complete r max o).store ≡ o.1
  after_complete-store max (ok u, t) = refl
  after_complete-store max (err e, t) = refl

  after_release-store : (max : ℕ) (o : Result (Unit {0}) × S) → (after_release r max o).store ≡ o.1
  after_release-store max (ok u, t) = refl
  after_release-store max (err e, t) = refl

  fails-Executes :
      (max : ℕ) (called : Bool) (f : Failure)
      → Allowed called
      → IsRun (fail_persistent_reservation store text i now r s max called f)
  unfolding fail_persistent_reservation
  fails-Executes max called f allowed =
      let o = store.fail i r (text f) s in
      let (same, kept) = after_fail-store max called f o in
      IsRun-of (after_fail r max called f o) o same (laws.fail-IsGood i r (text f) s good sound)
        (λ id. laws.fail-Ages i r (text f) s id good sound) (λ e. allowed (sym kept ∙ e))

  settles-Executes :
      (h : HandlerEntry) (result : Option AttemptError)
      → Allowed true
      → IsRun (settle_attempt store text i now r s h result)
  unfolding settle_attempt
  settles-Executes h none allowed =
      let o = store.complete i r s in
      IsRun-of (after_complete r h.options.max_attempts o) o
        (after_complete-store h.options.max_attempts o) (laws.complete-IsGood i r s good sound)
        (λ id. laws.complete-Ages i r s id good sound) (λ _. allowed refl)
  settles-Executes h (some e) allowed =
      let at = now + h.options.retry_backoff in
      let o = store.release i r at (text (attempt_failed e)) s in
      if_cases IsRun (ltb r.job.attempts h.options.max_attempts)
        (λ early.
          IsRun-of (after_release r h.options.max_attempts o) o
            (after_release-store h.options.max_attempts o)
            (laws.release-IsGood i r at (text (attempt_failed e)) s good sound)
            (λ id. laws.release-Ages i r at (text (attempt_failed e)) s id good sound)
            (λ _. allowed refl))
        (λ late. fails-Executes h.options.max_attempts true (execution_failed e) allowed)

  with-Executes :
      (outcome : ℕ → Outcome) (h : HandlerEntry)
      → lookup r.job.handler handlers ≡ some h
      → IsRun (execute_with store text i now r s outcome h)
  unfolding execute_with
  with-Executes outcome h e =
      if_cases IsRun (ltb h.options.max_attempts r.job.attempts)
        (λ beyond.
          fails-Executes h.options.max_attempts false attempts_exceeded
            (λ c. absurd (ground arith)))
        λ inside. elim (Option-cases (h.decode r.job.payload)) [
          | inl unread ↦
              rw (unread, execute_with)
                (fails-Executes h.options.max_attempts false payload_decoding_failed
                  (λ c. absurd (ground arith)))
          | inr (value, read) ↦
              rw (read, execute_with)
                (settles-Executes h (execute_attempt (outcome value)) (λ _. (h, e, ground arith)))
        ]

  pub execute_persistent-Executes :
      (outcome : ℕ → Outcome) → IsRun (execute_persistent store text i now r s handlers outcome)
  unfolding execute_persistent
  execute_persistent-Executes outcome = elim (Option-cases (lookup r.job.handler handlers)) [
    | inl e ↦
        rw (e, execute_persistent)
          (fails-Executes 0 false handler_not_found (λ c. absurd (ground arith)))
    | inr (h, e) ↦ rw (e, execute_persistent) (with-Executes outcome h e)
  ]
