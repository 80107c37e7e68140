-- ===== src/JobQueue/Advancing.antt =====
-- What happens next brings Shutdown nearer to its end, backend/framework/jobs.go and
-- backend/framework/jobs_delayed.go.
use bridra.Common.{
  ℕ, ◌+◌, ◌*◌, ◌≤◌, ◌<◌, ◌≡◌, Bool, true, false, none, some, List, [], ◌∷◌, arith, ◌⊎◌, length,
}
use bridra.Common.Sums.{sum}
use bridra.JobQueue.Queue.{
  Queue, stopping, Dispatch, placing, ScheduledJob, Scheduler, not_started, selecting, draining,
  flushing, returned, promoting, flushing_one, pop, has_stopping, is_stopped,
}
use bridra.JobQueue.Dispatching.{gives_up, advance, advance_at}
use bridra.JobQueue.Steps.{
  Event, receive, promote, stop_selecting, flush, take, finish_at, close_schedule, close_jobs,
  end_shutdown, step,
}
use bridra.JobQueue.Promotions.{pop-sum}

-- What is still to be done: with a dispatch, with the scheduler, and before the queue is stopped.
abbrev pub weight : Dispatch → ℕ
weight (placing job ready_at) = 6
weight _ = 1

abbrev pub stage : Scheduler → ℕ
stage not_started = 0
stage selecting = 3
stage (promoting s) = 6
stage draining = 2
stage flushing = 1
stage (flushing_one s) = 4
stage returned = 0

abbrev pub left_if : Bool → ℕ
left_if true = 0
left_if false = 1

abbrev pub five : ScheduledJob → ℕ
five s = 5

abbrev pub four : ScheduledJob → ℕ
four s = 4

unfoldable pub work_left : Queue → ℕ
work_left q =
    sum weight q.dispatches
    + sum five q.scheduled
    + sum four q.pending
    + stage q.scheduler
    + 2 * length q.jobs
    + length q.executing
    + left_if q.schedule_stop
    + left_if q.jobs_closed
    + left_if (is_stopped q.state)

pub record Advances (q r : Queue) : Type 0 where
  pub less : work_left r < work_left q
  pub stops : has_stopping r.state ≡ true
  pub same_capacity : r.capacity ≡ q.capacity
  pub same_workers : r.workers ≡ q.workers

pub finishes_one :
    (q : Queue) (job : ℕ) (rest : List ℕ)
    → job ∷ rest ≡ q.executing
    → q.state ≡ stopping
    → Advances q (step (Event.finishes 0) q)
unfolding step finish_at work_left sum
finishes_one q job rest same s = ground arith

pub takes_one :
    (q : Queue) (job : ℕ) (rest : List ℕ)
    → job ∷ rest ≡ q.jobs
    → [] ≡ q.executing
    → 1 ≤ q.workers
    → q.state ≡ stopping
    → Advances q (step Event.takes q)
unfolding step take work_left sum
takes_one q job rest same idle some_workers s = ground arith

pub promotes_one :
    (q : Queue) (s : ScheduledJob)
    → [] ≡ q.jobs
    → (q.scheduler ≡ promoting s) ⊎ (q.scheduler ≡ flushing_one s)
    → 1 ≤ q.capacity
    → q.state ≡ stopping
    → Advances q (step Event.promotes q)
unfolding step promote work_left sum
promotes_one q s none_ahead held room at_stop = ground arith

pub receives_one :
    (q : Queue) (s : ScheduledJob) (rest : List ScheduledJob)
    → s ∷ rest ≡ q.scheduled
    → (q.scheduler ≡ selecting) ⊎ (q.scheduler ≡ draining)
    → q.state ≡ stopping
    → Advances q (step Event.receives q)
unfolding step receive work_left sum
receives_one q s rest full at_work at_stop = ground arith

pub proceeds_one :
    (q : Queue) (d : Dispatch) (rest : List Dispatch)
    → d ∷ rest ≡ q.dispatches
    → [] ≡ q.scheduled
    → 1 ≤ q.capacity
    → q.state ≡ stopping
    → Advances q (step (Event.proceeds 0 (gives_up false)) q)
unfolding step advance_at advance work_left sum
proceeds_one q d rest same none_ahead room at_stop = ground arith

pub closes_schedule_next :
    (q : Queue)
    → [] ≡ q.dispatches
    → q.schedule_stop ≡ false
    → q.state ≡ stopping
    → Advances q (step Event.closes_schedule q)
unfolding step close_schedule work_left sum
closes_schedule_next q none_ahead unstopped at_stop = ground arith

pub stops_selecting_next :
    (q : Queue)
    → q.scheduler ≡ selecting
    → q.schedule_stop ≡ true
    → q.state ≡ stopping
    → Advances q (step Event.stops_selecting q)
unfolding step stop_selecting work_left
stops_selecting_next q at_work asked at_stop = ground arith

pub flushes_next :
    (q : Queue)
    → [] ≡ q.scheduled
    → q.scheduler ≡ draining
    → q.state ≡ stopping
    → Advances q (step Event.flushes q)
unfolding step flush work_left
flushes_next q none_ahead at_work at_stop = ground arith

pub returns_next :
    (q : Queue)
    → pop q.pending ≡ none
    → q.scheduler ≡ flushing
    → q.state ≡ stopping
    → Advances q (step Event.flushes q)
unfolding step flush work_left
returns_next q e at_work at_stop = ground arith

pub flushes_one :
    (q : Queue) (popped : ScheduledJob × List ScheduledJob)
    → pop q.pending ≡ some popped
    → q.scheduler ≡ flushing
    → q.state ≡ stopping
    → Advances q (step Event.flushes q)
unfolding step flush work_left
flushes_one q popped e at_work at_stop =
    let lighter = pop-sum four q.pending popped e in ground (arith, lighter)

pub closes_jobs_next :
    (q : Queue)
    → q.scheduler ≡ returned
    → q.jobs_closed ≡ false
    → q.state ≡ stopping
    → Advances q (step Event.closes_jobs q)
unfolding step close_jobs work_left
closes_jobs_next q ended unclosed at_stop = ground arith

pub ends_next :
    (q : Queue)
    → [] ≡ q.jobs
    → [] ≡ q.executing
    → q.jobs_closed ≡ true
    → q.state ≡ stopping
    → Advances q (step Event.ends_shutdown q)
unfolding step end_shutdown work_left
ends_next q none_ahead idle closed at_stop = ground arith
