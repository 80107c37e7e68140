-- ===== src/JobQueue/Queue.antt =====
-- The state of a JobQueue without a store, backend/framework/jobs.go, and of its scheduler,
-- backend/framework/jobs_delayed.go. A job, with its handler, is a number, and a channel a list.
use bridra.Common.{
  ℕ, Bool, true, false, ◌||◌, Option, none, some, List, [], ◌∷◌, ltb, ◌==◌, if◌then◌else◌,
}

-- jobQueueState
pub data QueueState : Type 0 where
  collecting running stopping stopped : QueueState

-- scheduledJob
pub record ScheduledJob : Type 0 where
  pub job : ℕ
  pub ready_at : ℕ
  pub sequence : ℕ

-- A dispatch after prepareJobDispatch: before the send of DispatchJob, and before the slot and before
-- the send of dispatchJobAt.
pub data Dispatch : Type 0 where
  sending : ℕ → Dispatch
  delaying : ℕ → ℕ → Dispatch
  placing : ℕ → ℕ → Dispatch

-- The goroutine of schedule: not started, in its select, in promoteScheduledJob, in drainScheduledJobs before and
-- after the channel is found empty, in its last promotions, returned.
pub data Scheduler : Type 0 where
  not_started selecting draining flushing returned : Scheduler
  promoting flushing_one : ScheduledJob → Scheduler

-- JobQueue, with the goroutines that it started and the jobs accepted and executed so far
pub record Queue : Type 0 where
  pub capacity : ℕ
  pub workers : ℕ
  pub state : QueueState
  pub dispatches : List Dispatch
  pub jobs : List ℕ
  pub scheduled : List ScheduledJob
  pub delayed_slots : ℕ
  pub pending : List ScheduledJob
  pub sequence : ℕ
  pub scheduler : Scheduler
  pub schedule_stop : Bool
  pub jobs_closed : Bool
  pub executing : List ℕ
  pub accepted : List ℕ
  pub executed : List ℕ

-- NewJobQueue, with normalized options
unfoldable pub new_job_queue : ℕ → ℕ → Queue
new_job_queue capacity workers = record {
  capacity = capacity;
  workers = workers;
  state = collecting;
  dispatches = [];
  jobs = [];
  scheduled = [];
  delayed_slots = 0;
  pending = [];
  sequence = 0;
  scheduler = not_started;
  schedule_stop = false;
  jobs_closed = false;
  executing = [];
  accepted = [];
  executed = [];
}

abbrev pub is_running : QueueState → Bool
is_running running = true
is_running _ = false

abbrev pub is_collecting : QueueState → Bool
is_collecting collecting = true
is_collecting _ = false

abbrev pub is_stopping : QueueState → Bool
is_stopping stopping = true
is_stopping _ = false

abbrev pub is_stopped : QueueState → Bool
is_stopped stopped = true
is_stopped _ = false

-- Whether the channel `stopping` is closed.
abbrev pub has_stopping : QueueState → Bool
has_stopping state = is_stopping state || is_stopped state

-- scheduledJobHeap.Less
unfoldable pub less : ScheduledJob → ScheduledJob → Bool
less a b = if a.ready_at == b.ready_at then ltb a.sequence b.sequence else ltb a.ready_at b.ready_at

-- A heap's least job, and the others
abbrev pub least_of :
    ScheduledJob → Option (ScheduledJob × List ScheduledJob) → ScheduledJob × List ScheduledJob
least_of a none = (a, [])
least_of a (some (b, rest)) = if less b a then (b, a ∷ rest) else (a, b ∷ rest)

-- heap.Pop
unfoldable pub pop : List ScheduledJob → Option (ScheduledJob × List ScheduledJob)
pop [] = none
pop (a ∷ heap) = some (least_of a (pop heap))
