-- ===== src/JobQueue/Workers.antt =====
-- The workers of a queue over a store, backend/framework/jobs_persistent.go: persistJob and
-- workPersistent. A run is a list of events, in which the workers take turns in any order.
use bridra.Common.{
  ℕ, zero, suc, Bool, true, false, ◌||◌, Option, some, List, [], ◌∷◌, ◌++◌, String, ltb,
  if◌then◌else◌,
}
use bridra.Common.Dict.{Dict}
use bridra.JobStore.Job.{Error, context_done, store_empty, Result, ok, err, Bytes, JobReservation}
use bridra.JobQueue.Executing.{Outcome}
use bridra.JobQueue.Handlers.{HandlerEntry}
use bridra.JobQueue.Persistent.{
  JobStore, Failure, reserving, store_operation_failed, Report, Ran, execute_persistent,
}

-- A goroutine of workPersistent: at the top of its loop, with a reservation, in
-- waitForPersistentWork, and returned.
pub data Worker : Type 0 where
  at_top waiting worker_returned : Worker
  holding : JobReservation → Worker

-- What a select of waitForPersistentWork takes
pub data Wait : Type 0 where
  context_ends receives_wake timer_fires : Wait

-- What a worker reads from outside in a turn: whether its context is cancelled, what the store reads,
-- the time, what the handler does with a value, and what ends a wait.
pub record Inputs (I : Type 0) : Type 0 where
  pub cancelled : Bool
  pub input : I
  pub now : ℕ
  pub outcome : ℕ → Outcome
  pub wait : Wait

-- A call of a handler, for an attempt at a job
pub record Execution : Type 0 where
  pub id : String
  pub handler : String
  pub attempt : ℕ

-- A running queue over a store, with the calls of handlers and the reports so far
pub record PersistentQueue (S : Type 0) : Type 0 where
  pub store : S
  pub handlers_by_name : Dict HandlerEntry
  pub lease_duration : ℕ
  pub wake : Bool
  pub workers : List Worker
  pub executed : List Execution
  pub reports : List Report

-- What a worker's turn leaves, and the worker after it
pub record Turn (S : Type 0) : Type 0 where
  pub queue : PersistentQueue S
  pub worker : Worker

abbrev pub reserve_reports : Error → List Report
reserve_reports store_empty = []
reserve_reports context_done = []
reserve_reports e =
    record {
      job_id = "";
      handler = "";
      attempts = 0;
      max_attempts = 0;
      error = store_operation_failed reserving e;
    }
    ∷ []

abbrev pub calls_of : Bool → JobReservation → List Execution
calls_of true r = record { id = r.job.id; handler = r.job.handler; attempt = r.job.attempts } ∷ []
calls_of false r = []

module _ {S : Type 0} (q : PersistentQueue S) where
  abbrev pub after_reserve : Result JobReservation × S → Turn S
  after_reserve (ok r, s) = record { queue = record q { store = s }; worker = holding r }
  after_reserve (err e, s) = record {
    queue = record q { store = s; reports = reserve_reports e ++ q.reports };
    worker = waiting;
  }

  abbrev pub after_execute : JobReservation → Ran S → Turn S
  after_execute r ran = record {
    queue = record q {
      store = ran.store;
      wake = q.wake || ran.woken;
      executed = calls_of ran.called r ++ q.executed;
      reports = ran.reports ++ q.reports;
    };
    worker = at_top;
  }

  -- waitForPersistentWork
  unfoldable pub wait_for_persistent_work : Bool → Wait → Turn S
  wait_for_persistent_work cancelled context_ends =
      if cancelled
      then record { queue = q; worker = worker_returned }
      else record { queue = q; worker = waiting }
  wait_for_persistent_work cancelled receives_wake =
      if q.wake
      then record { queue = record q { wake = false }; worker = at_top }
      else record { queue = q; worker = waiting }
  wait_for_persistent_work cancelled timer_fires = record { queue = q; worker = at_top }

module _ {S I : Type 0} (store : JobStore S I) (text : Failure → String) where
  -- workPersistent, from one call of the store to the next
  unfoldable pub turn : Inputs I → PersistentQueue S → Worker → Turn S
  unfolding wait_for_persistent_work execute_persistent
  turn i q at_top =
      if i.cancelled
      then record { queue = q; worker = worker_returned }
      else after_reserve q (store.reserve i.input i.now q.lease_duration q.store)
  turn i q (holding r) =
      after_execute q r
        (execute_persistent store text i.input i.now r q.store q.handlers_by_name i.outcome)
  turn i q waiting = wait_for_persistent_work q i.cancelled i.wait
  turn i q worker_returned = record { queue = q; worker = worker_returned }

  -- A turn of the worker at a place
  unfoldable pub turn_at :
      ℕ → Inputs I → PersistentQueue S → List Worker → PersistentQueue S × List Worker
  unfolding turn
  turn_at n i q [] = (q, [])
  turn_at zero i q (w ∷ ws) = let turned = turn i q w in (turned.queue, turned.worker ∷ ws)
  turn_at (suc n) i q (w ∷ ws) = let (after, others) = turn_at n i q ws in (after, w ∷ others)

abbrev pub after_enqueue :
    {S : Type 0} → PersistentQueue S → Result (Unit {0}) × S → PersistentQueue S
after_enqueue q (ok u, s) = record q { store = s; wake = true }
after_enqueue q (err e, s) = record q { store = s }

module _ {S I : Type 0} (store : JobStore S I) where
  -- persistJob, with the identifier of newJobIdentifier and the encoded payload, where these succeed
  unfoldable pub persist_job :
      I → Option String → Option Bytes → String → ℕ → ℕ → PersistentQueue S → PersistentQueue S
  persist_job i (some id) (some payload) handler available_at enqueued_at q = after_enqueue q (
      store.enqueue i
        (record {
          id = id;
          handler = handler;
          payload = payload;
          available_at = if ltb available_at enqueued_at then enqueued_at else available_at;
          enqueued_at = enqueued_at;
          attempts = 0;
        })
        q.store)
  persist_job i _ _ handler available_at enqueued_at q = q

abbrev pub idle_workers : ℕ → List Worker
idle_workers zero = []
idle_workers (suc n) = at_top ∷ idle_workers n

-- Start of a queue with a store, its handlers and a number of workers
unfoldable pub start_persistent : {S : Type 0} → S → Dict HandlerEntry → ℕ → ℕ → PersistentQueue S
start_persistent store handlers_by_name lease_duration workers = record {
  store = store;
  handlers_by_name = handlers_by_name;
  lease_duration = lease_duration;
  wake = false;
  workers = idle_workers workers;
  executed = [];
  reports = [];
}

-- What happens next.
pub data PersistentEvent (I : Type 0) : Type 0 where
  persists : I → Option String → Option Bytes → String → ℕ → ℕ → PersistentEvent I
  works : ℕ → Inputs I → PersistentEvent I

abbrev pub with_workers : {S : Type 0} → PersistentQueue S × List Worker → PersistentQueue S
with_workers (q, workers) = record q { workers = workers }

module _ {S I : Type 0} (store : JobStore S I) (text : Failure → String) where
  unfoldable pub persistent_step : PersistentEvent I → PersistentQueue S → PersistentQueue S
  unfolding persist_job turn_at
  persistent_step (persists i id payload handler available_at enqueued_at) q =
      persist_job store i id payload handler available_at enqueued_at q
  persistent_step (works n i) q = with_workers (turn_at store text n i q q.workers)

  unfoldable pub persistent_run : List (PersistentEvent I) → PersistentQueue S → PersistentQueue S
  unfolding persistent_step
  persistent_run [] q = q
  persistent_run (e ∷ es) q = persistent_run es (persistent_step e q)
