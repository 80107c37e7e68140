-- ===== src/JobQueue/Steps.antt =====
-- The scheduler, the workers, Start and Shutdown in steps, backend/framework/jobs.go and
-- backend/framework/jobs_delayed.go.
use bridra.Common.{
  ℕ, zero, suc, ◌+◌, ◌-◌, ◌%◌, ◌^◌, Bool, true, false, not, ◌&&◌, Option, none, some, List, [], ◌∷◌,
  ◌++◌, ltb, if◌then◌else◌, length,
}
use bridra.JobQueue.Queue.{
  Queue, QueueState, collecting, running, stopping, stopped, Dispatch, sending, delaying,
  ScheduledJob, Scheduler, not_started, selecting, draining, flushing, returned, promoting,
  flushing_one, is_collecting, is_stopping, pop,
}
use bridra.JobQueue.Dispatching.{prepare_job_dispatch, Choice, advance_at}

-- heap.Push with the next sequence number
abbrev pub push_scheduled : Queue → ScheduledJob → List ScheduledJob → Queue
push_scheduled q s rest =
    let sequence = (q.sequence + 1) % 2 ^ 64 in
    record q {
      scheduled = rest;
      sequence = sequence;
      pending = record s { sequence = sequence } ∷ q.pending;
    }

-- The receive from `scheduled`, in schedule and in drainScheduledJobs
unfoldable pub receive : Queue → List ScheduledJob → Scheduler → Queue
receive q (s ∷ rest) selecting = push_scheduled q s rest
receive q (s ∷ rest) draining = push_scheduled q s rest
receive q _ _ = q

abbrev pub pop_into : (ScheduledJob → Scheduler) → Queue → ScheduledJob × List ScheduledJob → Queue
pop_into place q popped = record q { scheduler = place popped.0; pending = popped.1 }

abbrev pub fire_least : ℕ → Queue → Option (ScheduledJob × List ScheduledJob) → Queue
fire_least now q none = q
fire_least now q (some popped) =
    if ltb now popped.0.ready_at then q else pop_into promoting q popped

-- The timer of schedule, at a time: the least pending job is due.
unfoldable pub fire : ℕ → Queue → Scheduler → Queue
fire now q selecting = fire_least now q (pop q.pending)
fire now q _ = q

-- promoteScheduledJob
abbrev pub promoted : Queue → ScheduledJob → Scheduler → Queue
promoted q s after =
    if ltb (length q.jobs) q.capacity
    then record q {
      jobs = q.jobs ++ s.job ∷ [];
      delayed_slots = q.delayed_slots - 1;
      scheduler = after;
    }
    else q

unfoldable pub promote : Queue → Scheduler → Queue
promote q (promoting s) = promoted q s selecting
promote q (flushing_one s) = promoted q s flushing
promote q _ = q

-- The receive from scheduleStop
unfoldable pub stop_selecting : Queue → Scheduler → Queue
stop_selecting q selecting = if q.schedule_stop then record q { scheduler = draining } else q
stop_selecting q _ = q

abbrev pub flush_least : Queue → Option (ScheduledJob × List ScheduledJob) → Queue
flush_least q none = record q { scheduler = returned }
flush_least q (some popped) = pop_into flushing_one q popped

-- drainScheduledJobs: the default of its select, and its last loop
unfoldable pub flush : Queue → List ScheduledJob → Scheduler → Queue
flush q [] draining = record q { scheduler = flushing }
flush q _ flushing = flush_least q (pop q.pending)
flush q _ _ = q

-- A worker's receive from `jobs`
unfoldable pub take : Queue → List ℕ → Queue
take q [] = q
take q (job ∷ rest) =
    if ltb (length q.executing) q.workers && not (is_collecting q.state)
    then record q { jobs = rest; executing = job ∷ q.executing }
    else q

-- The end of execute for the job at a place: those still in execution, and the one that is not.
unfoldable pub finish_at : ℕ → List ℕ → List ℕ × List ℕ
finish_at n [] = ([], [])
finish_at zero (job ∷ rest) = (rest, job ∷ [])
finish_at (suc n) (job ∷ rest) = let (others, done) = finish_at n rest in (job ∷ others, done)

-- `go queue.schedule()`
abbrev pub begin_schedule : Scheduler → Scheduler
begin_schedule not_started = selecting
begin_schedule scheduler = scheduler

-- Start
unfoldable pub start : Queue → QueueState → Queue
start q collecting = record q { state = running; scheduler = begin_schedule q.scheduler }
start q _ = q

-- Shutdown, to its unlock, with what it reads of the context
unfoldable pub shut_down : Bool → Queue → QueueState → Queue
shut_down ended q collecting =
    if ended then q else record q { state = stopped; schedule_stop = true; jobs_closed = true }
shut_down ended q running = if ended then q else record q { state = stopping }
shut_down ended q _ = q

abbrev pub is_returned : Scheduler → Bool
is_returned returned = true
is_returned _ = false

abbrev pub none_left : {A : Type 0} → List A → Bool
none_left [] = true
none_left (x ∷ xs) = false

-- Shutdown, from dispatches.Wait on
unfoldable pub close_schedule : Queue → Queue
close_schedule q =
    if is_stopping q.state && none_left q.dispatches then record q { schedule_stop = true } else q

-- finishShutdown: after scheduleDone, and after workers.Wait, for which every worker has found the
-- closed channel empty
unfoldable pub close_jobs : Queue → Queue
close_jobs q =
    if is_stopping q.state && is_returned q.scheduler then record q { jobs_closed = true } else q

unfoldable pub end_shutdown : Queue → Queue
end_shutdown q =
    if is_stopping q.state && q.jobs_closed && none_left q.jobs && none_left q.executing
    then record q { state = stopped }
    else q

-- What happens next.
pub data Event : Type 0 where
  dispatches_job : Bool → Bool → ℕ → Event
  dispatches_at : Bool → Bool → ℕ → ℕ → Event
  proceeds : ℕ → Choice → Event
  receives promotes stops_selecting flushes takes : Event
  fires finishes : ℕ → Event
  starts closes_schedule closes_jobs ends_shutdown : Event
  shuts_down : Bool → Event

abbrev pub begin_dispatch : {E : Type 0} → Option E → Dispatch → Queue → Queue
begin_dispatch (some e) dispatch q = q
begin_dispatch none dispatch q = record q { dispatches = dispatch ∷ q.dispatches }

unfoldable pub step : Event → Queue → Queue
step (dispatches_job ended has_handler job) q =
    begin_dispatch (prepare_job_dispatch ended has_handler q) (sending job) q
step (dispatches_at ended has_handler job ready_at) q =
    begin_dispatch (prepare_job_dispatch ended has_handler q) (delaying job ready_at) q
step (proceeds n choice) q =
    let advanced = advance_at n choice q q.dispatches in
    record advanced.queue { dispatches = advanced.left }
step receives q = receive q q.scheduled q.scheduler
step (fires now) q = fire now q q.scheduler
step promotes q = promote q q.scheduler
step stops_selecting q = stop_selecting q q.scheduler
step flushes q = flush q q.scheduled q.scheduler
step takes q = take q q.jobs
step (finishes n) q =
    let (others, done) = finish_at n q.executing in
    record q { executing = others; executed = done ++ q.executed }
step starts q = start q q.state
step (shuts_down ended) q = shut_down ended q q.state
step closes_schedule q = close_schedule q
step closes_jobs q = close_jobs q
step ends_shutdown q = end_shutdown q

unfoldable pub run : List Event → Queue → Queue
run [] q = q
run (e ∷ es) q = run es (step e q)
