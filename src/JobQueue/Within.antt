-- ===== src/JobQueue/Within.antt =====
-- No attempt beyond those of the handler is made, backend/framework/jobs_persistent.go.
use bridra.Common.{
  ℕ, zero, suc, ◌≤◌, ◌≡◌, refl, sym, ap, ◌∙◌, String, Bool, true, false, none, some, List, [], ◌∷◌,
  ◌++◌, if_cases, All,
}
use bridra.Common.Dict.{Dict, lookup}
use bridra.JobStore.Job.{Result, ok, err, JobReservation}
use bridra.JobQueue.Handlers.{HandlerEntry}
use bridra.JobQueue.Persistent.{JobStore, Failure, Ran}
use bridra.JobQueue.Workers.{
  Wait, context_ends, receives_wake, timer_fires, Worker, at_top, waiting, worker_returned, holding,
  Inputs, Execution, PersistentQueue, Turn, after_reserve, after_execute, calls_of,
  wait_for_persistent_work, turn, turn_at, after_enqueue, persist_job, PersistentEvent, persists,
  works, persistent_step, persistent_run, start_persistent,
}
use bridra.JobQueue.StoreLaws.{IsJobStore}
use bridra.JobQueue.Executed.{Executes, execute_persistent-Executes}
use bridra.JobQueue.Uses.{IsSoundEvent}

-- A call of a handler that is registered, for an attempt that it has.
abbrev pub IsAllowed : Dict HandlerEntry → Execution → Type 0
IsAllowed handlers e =
    (h : HandlerEntry) × (lookup e.handler handlers ≡ some h) × (e.attempt ≤ h.options.max_attempts)

module _ {S I : Type 0} (store : JobStore S I) (laws : IsJobStore store) (text : Failure → String)
    (handlers : Dict HandlerEntry) where
  record Allows (q : PersistentQueue S) : Type 0 where
    good : laws.IsGood q.store
    same : q.handlers_by_name ≡ handlers
    allowed : All (IsAllowed handlers) q.executed

  calls-IsAllowed :
      (called : Bool) (r : JobReservation) (executed : List Execution)
      → (called ≡ true
          → (h : HandlerEntry) × (lookup r.job.handler handlers ≡ some h)
            × (r.job.attempts ≤ h.options.max_attempts))
      → All (IsAllowed handlers) executed
      → All (IsAllowed handlers) (calls_of called r ++ executed)
  calls-IsAllowed true r executed h others = (h refl, others)
  calls-IsAllowed false r executed h others = others

  reserve-Allows :
      (q : PersistentQueue S) (o : Result JobReservation × S)
      → laws.IsGood o.1
      → Allows q
      → Allows (after_reserve q o).queue
  reserve-Allows q (ok r, t) good a = record { good = good; same = a.same; allowed = a.allowed }
  reserve-Allows q (err e, t) good a = record { good = good; same = a.same; allowed = a.allowed }

  within :
      {m : Dict HandlerEntry} (r : JobReservation)
      → m ≡ handlers
      → (h : HandlerEntry) × (lookup r.job.handler m ≡ some h)
        × (r.job.attempts ≤ h.options.max_attempts)
      → (h : HandlerEntry) × (lookup r.job.handler handlers ≡ some h)
        × (r.job.attempts ≤ h.options.max_attempts)
  within r same (h, found, fits) = (h, ap (lookup r.job.handler) (sym same) ∙ found, fits)

  execute-Allows :
      (q : PersistentQueue S) (r : JobReservation) (ran : Ran S)
      → Executes store laws r q.store q.handlers_by_name ran
      → Allows q
      → Allows (after_execute q r ran).queue
  execute-Allows q r ran e a = record {
    good = e.good;
    same = a.same;
    allowed = calls-IsAllowed ran.called r q.executed (λ c. within r a.same (e.within c)) a.allowed;
  }

  wait-Allows :
      (q : PersistentQueue S) (cancelled : Bool) (wait : Wait)
      → Allows q
      → Allows (wait_for_persistent_work q cancelled wait).queue
  unfolding wait_for_persistent_work
  wait-Allows q cancelled context_ends a =
      if_cases (λ (t : Turn S). Allows t.queue) cancelled (λ _. a) (λ _. a)
  wait-Allows q cancelled receives_wake a =
      if_cases (λ (t : Turn S). Allows t.queue) q.wake
        (λ _. record { good = a.good; same = a.same; allowed = a.allowed }) (λ _. a)
  wait-Allows q cancelled timer_fires a = a

  turn-Allows :
      (i : Inputs I) (q : PersistentQueue S) (w : Worker)
      → laws.IsSound i.input
      → Allows q
      → Allows (turn store text i q w).queue
  unfolding turn wait_for_persistent_work
  turn-Allows i q at_top sound a =
      if_cases (λ (t : Turn S). Allows t.queue) i.cancelled (λ _. a)
        λ _.
          reserve-Allows q _
            (laws.reserve-IsGood i.input i.now q.lease_duration q.store a.good sound) a
  turn-Allows i q (holding r) sound a =
      execute-Allows q r _
        (execute_persistent-Executes store laws text i.input i.now r q.store q.handlers_by_name
          a.good sound i.outcome)
        a
  turn-Allows i q waiting sound a = wait-Allows q i.cancelled i.wait a
  turn-Allows i q worker_returned sound a = a

  turn_at-Allows :
      (n : ℕ) (i : Inputs I) (q : PersistentQueue S) (ws : List Worker)
      → laws.IsSound i.input
      → Allows q
      → Allows (turn_at store text n i q ws).0
  unfolding turn_at
  turn_at-Allows n i q [] sound a = a
  turn_at-Allows zero i q (w ∷ ws) sound a = turn-Allows i q w sound a
  turn_at-Allows (suc n) i q (w ∷ ws) sound a = turn_at-Allows n i q ws sound a

  enqueue-Allows :
      (q : PersistentQueue S) (o : Result (Unit {0}) × S)
      → laws.IsGood o.1
      → Allows q
      → Allows (after_enqueue q o)
  enqueue-Allows q (ok u, t) good a = record { good = good; same = a.same; allowed = a.allowed }
  enqueue-Allows q (err e, t) good a = record { good = good; same = a.same; allowed = a.allowed }

  step-Allows :
      (e : PersistentEvent I) (q : PersistentQueue S)
      → IsSoundEvent laws.IsSound e
      → Allows q
      → Allows (persistent_step store text e q)
  unfolding persistent_step persist_job
  step-Allows (persists i (some j) (some payload) handler at enqueued_at) q sound a =
      enqueue-Allows q _ (laws.enqueue-IsGood i _ q.store a.good sound) a
  step-Allows (persists i (some j) none handler at enqueued_at) q sound a = a
  step-Allows (persists i none payload handler at enqueued_at) q sound a = a
  step-Allows (works n i) q sound a =
      let b = turn_at-Allows n i q q.workers sound a in
      record { good = b.good; same = b.same; allowed = b.allowed }

  run-Allows :
      (es : List (PersistentEvent I)) (q : PersistentQueue S)
      → All (IsSoundEvent laws.IsSound) es
      → Allows q
      → Allows (persistent_run store text es q)
  unfolding persistent_run
  run-Allows [] q sound a = a
  run-Allows (e ∷ es) q (sound, others) a =
      run-Allows es (persistent_step store text e q) others (step-Allows e q sound a)

  -- On a good store, under every interleaving of dispatches and workers, a handler is called only
  -- where it is registered under the job's handler name, and only for an attempt among those it has.
  pub executed-IsAllowed :
      (s : S) (lease n : ℕ) (es : List (PersistentEvent I))
      → laws.IsGood s
      → All (IsSoundEvent laws.IsSound) es
      → All
          (IsAllowed handlers)
          (persistent_run store text es (start_persistent s handlers lease n)).executed
  unfolding start_persistent
  executed-IsAllowed s lease n es good sound =
      (run-Allows es (start_persistent s handlers lease n) sound
        (record { good = good; same = refl; allowed = tt })).allowed
