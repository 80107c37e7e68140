-- ===== src/JobQueue/Stopping.antt =====
-- The order in which Shutdown ends the queue, backend/framework/jobs.go and
-- backend/framework/jobs_delayed.go.
use bridra.Common.{
  ℕ, zero, suc, ◌≡◌, refl, ap, Bool, true, false, not, ◌&&◌, ◌||◌, List, [], ◌∷◌, arith,
}
use bridra.JobQueue.Queue.{
  Queue, QueueState, collecting, running, stopping, stopped, Dispatch, sending, delaying,
  ScheduledJob, Scheduler, not_started, new_job_queue, selecting, flushing, returned, promoting,
  flushing_one, pop, has_stopping, is_collecting, is_stopping, is_running, is_stopped,
}
use bridra.JobQueue.Dispatching.{prepare_job_dispatch, Choice, advance, advance_at}
use bridra.Common.Sums.{sum, count}
use bridra.JobQueue.Places.{waiting_jobs, promoted_one}
use bridra.JobQueue.Accounting.{jobs-IsAccounted}
use bridra.JobQueue.Steps.{
  Event, receive, fire, promote, stop_selecting, flush, take, finish_at, start, shut_down,
  close_schedule, close_jobs, end_shutdown, begin_dispatch, step, run, is_returned, none_left,
}

abbrev implies : Bool → Bool → Bool
implies true b = b
implies false b = true

-- The scheduler has seen the stop.
abbrev pub drains : Scheduler → Bool
drains not_started = false
drains selecting = false
drains (promoting s) = false
drains _ = true

-- The scheduler has found the channel empty.
abbrev pub flushes_heap : Scheduler → Bool
flushes_heap flushing = true
flushes_heap (flushing_one s) = true
flushes_heap returned = true
flushes_heap _ = false

abbrev pub is_not_started : Scheduler → Bool
is_not_started not_started = true
is_not_started _ = false

abbrev pub is_active : QueueState → Bool
is_active state = is_running state || is_stopping state

-- What each stage of Shutdown waits for has happened.
unfoldable pub orderly : Queue → Bool
orderly q =
    implies q.schedule_stop (has_stopping q.state && none_left q.dispatches)
    && implies (drains q.scheduler) q.schedule_stop
    && implies (flushes_heap q.scheduler) (none_left q.scheduled)
    && implies (is_returned q.scheduler) (none_left q.pending)
    && implies (is_not_started q.scheduler) (
        not (is_active q.state)
        && none_left q.dispatches
        && none_left q.scheduled
        && none_left q.pending)
    && implies q.jobs_closed
        (q.schedule_stop && (is_returned q.scheduler || is_not_started q.scheduler))
    && implies (is_stopped q.state) (q.jobs_closed && none_left q.jobs && none_left q.executing)
    && implies (is_collecting q.state)
        (is_not_started q.scheduler && none_left q.jobs && none_left q.executing)

start-orderly :
    (q : Queue) (state : QueueState)
    → state ≡ q.state
    → orderly q ≡ true
    → orderly (start q state) ≡ true
unfolding orderly start
start-orderly q collecting same h = ground arith
start-orderly q running same h = h
start-orderly q stopping same h = h
start-orderly q stopped same h = h

shut_down-orderly :
    (ended : Bool) (q : Queue) (state : QueueState)
    → state ≡ q.state
    → orderly q ≡ true
    → orderly (shut_down ended q state) ≡ true
unfolding orderly shut_down
shut_down-orderly ended q state same h = ground arith

close_schedule-orderly : (q : Queue) → orderly q ≡ true → orderly (close_schedule q) ≡ true
unfolding orderly close_schedule
close_schedule-orderly q h = ground arith

close_jobs-orderly : (q : Queue) → orderly q ≡ true → orderly (close_jobs q) ≡ true
unfolding orderly close_jobs
close_jobs-orderly q h = ground arith

end_shutdown-orderly : (q : Queue) → orderly q ≡ true → orderly (end_shutdown q) ≡ true
unfolding orderly end_shutdown
end_shutdown-orderly q h = ground arith

receive-orderly :
    (q : Queue) (scheduled : List ScheduledJob) (scheduler : Scheduler)
    → scheduled ≡ q.scheduled
    → scheduler ≡ q.scheduler
    → orderly q ≡ true
    → orderly (receive q scheduled scheduler) ≡ true
unfolding orderly receive
receive-orderly q scheduled scheduler full same h = ground arith

fire-orderly :
    (now : ℕ) (q : Queue) (scheduler : Scheduler)
    → scheduler ≡ q.scheduler
    → orderly q ≡ true
    → orderly (fire now q scheduler) ≡ true
unfolding orderly fire
fire-orderly now q scheduler same h = ground arith

promote-orderly :
    (q : Queue) (scheduler : Scheduler)
    → scheduler ≡ q.scheduler
    → orderly q ≡ true
    → orderly (promote q scheduler) ≡ true
unfolding orderly promote
promote-orderly q scheduler same h = ground arith

stop_selecting-orderly :
    (q : Queue) (scheduler : Scheduler)
    → scheduler ≡ q.scheduler
    → orderly q ≡ true
    → orderly (stop_selecting q scheduler) ≡ true
unfolding orderly stop_selecting
stop_selecting-orderly q scheduler same h = ground arith

flush-orderly :
    (q : Queue) (scheduled : List ScheduledJob) (scheduler : Scheduler)
    → scheduled ≡ q.scheduled
    → scheduler ≡ q.scheduler
    → orderly q ≡ true
    → orderly (flush q scheduled scheduler) ≡ true
unfolding orderly flush pop
flush-orderly q scheduled scheduler full same h = ground arith

take-orderly :
    (q : Queue) (jobs : List ℕ) → jobs ≡ q.jobs → orderly q ≡ true → orderly (take q jobs) ≡ true
unfolding orderly take
take-orderly q jobs same h = ground arith

finish_at-orderly :
    (n : ℕ) (q : Queue) → orderly q ≡ true → orderly (step (Event.finishes n) q) ≡ true
unfolding orderly step finish_at
finish_at-orderly n q h = ground arith

begin_dispatch-orderly :
    (ended has_handler : Bool) (d : Dispatch) (q : Queue)
    → orderly q ≡ true
    → orderly (begin_dispatch (prepare_job_dispatch ended has_handler q) d q) ≡ true
unfolding orderly prepare_job_dispatch
begin_dispatch-orderly ended has_handler d q h = ground arith

-- What a dispatch leaves as it is.
pub record Keeps (q r : Queue) : Type 0 where
  same_state : r.state ≡ q.state
  same_pending : r.pending ≡ q.pending
  same_scheduler : r.scheduler ≡ q.scheduler
  same_stop : r.schedule_stop ≡ q.schedule_stop
  same_closed : r.jobs_closed ≡ q.jobs_closed
  same_executing : r.executing ≡ q.executing
  pub same_capacity : r.capacity ≡ q.capacity
  pub same_workers : r.workers ≡ q.workers

advance-Keeps : (q : Queue) (d : Dispatch) (choice : Choice) → Keeps q (advance q d choice).queue
unfolding advance
advance-Keeps q d choice = ground arith

pub advance_at-Keeps :
    (n : ℕ) (choice : Choice) (q : Queue) (dispatches : List Dispatch)
    → Keeps q (advance_at n choice q dispatches).queue
unfolding advance_at
advance_at-Keeps n choice q [] = ground arith
advance_at-Keeps zero choice q (d ∷ dispatches) = advance-Keeps q d choice
advance_at-Keeps (suc n) choice q (d ∷ dispatches) = advance_at-Keeps n choice q dispatches

moved-orderly :
    (q r : Queue) (left : List Dispatch)
    → Keeps q r
    → q.schedule_stop ≡ false
    → is_active q.state ≡ true
    → orderly q ≡ true
    → orderly (record r { dispatches = left }) ≡ true
unfolding orderly
moved-orderly q r left k unstopped active h =
    ground (arith, k.same_state, k.same_scheduler, k.same_stop, k.same_closed)

proceeds-orderly :
    (n : ℕ) (choice : Choice) (q : Queue) (dispatches : List Dispatch)
    → dispatches ≡ q.dispatches
    → orderly q ≡ true
    → orderly (record (advance_at n choice q dispatches).queue {
      dispatches = (advance_at n choice q dispatches).left;
    })
      ≡ true
unfolding orderly advance_at
proceeds-orderly n choice q [] same h = ground arith
proceeds-orderly n choice q (d ∷ dispatches) same h =
    moved-orderly q (advance_at n choice q (d ∷ dispatches)).queue
      (advance_at n choice q (d ∷ dispatches)).left (advance_at-Keeps n choice q (d ∷ dispatches))
      (ground arith) (ground arith) h

pub step-orderly : (e : Event) (q : Queue) → orderly q ≡ true → orderly (step e q) ≡ true
unfolding step
step-orderly (Event.dispatches_job ended has_handler job) q h =
    begin_dispatch-orderly ended has_handler (sending job) q h
step-orderly (Event.dispatches_at ended has_handler job ready_at) q h =
    begin_dispatch-orderly ended has_handler (delaying job ready_at) q h
step-orderly (Event.proceeds n choice) q h = proceeds-orderly n choice q q.dispatches refl h
step-orderly Event.receives q h = receive-orderly q q.scheduled q.scheduler refl refl h
step-orderly (Event.fires now) q h = fire-orderly now q q.scheduler refl h
step-orderly Event.promotes q h = promote-orderly q q.scheduler refl h
step-orderly Event.stops_selecting q h = stop_selecting-orderly q q.scheduler refl h
step-orderly Event.flushes q h = flush-orderly q q.scheduled q.scheduler refl refl h
step-orderly Event.takes q h = take-orderly q q.jobs refl h
step-orderly (Event.finishes n) q h = finish_at-orderly n q h
step-orderly Event.starts q h = start-orderly q q.state refl h
step-orderly (Event.shuts_down ended) q h = shut_down-orderly ended q q.state refl h
step-orderly Event.closes_schedule q h = close_schedule-orderly q h
step-orderly Event.closes_jobs q h = close_jobs-orderly q h
step-orderly Event.ends_shutdown q h = end_shutdown-orderly q h

pub run-orderly : (es : List Event) (q : Queue) → orderly q ≡ true → orderly (run es q) ≡ true
unfolding run
run-orderly [] q h = h
run-orderly (e ∷ es) q h = run-orderly es (step e q) (step-orderly e q h)

stopped-empty :
    (l : ℕ) (q : Queue)
    → q.state ≡ stopped
    → orderly q ≡ true
    → (waiting_jobs l q ≡ 0) × (q.executing ≡ [])
unfolding orderly waiting_jobs promoted_one sum
stopped-empty l q h o = ground arith

-- From a new queue without a store, under every interleaving of dispatches, the scheduler, the
-- workers, Start and Shutdown: once the queue is stopped, each job has been executed as often as it
-- has been accepted, and no job waits or is being executed.
pub stopped_executed_all :
    (l capacity workers : ℕ) (es : List Event)
    → (run es (new_job_queue capacity workers)).state ≡ stopped
    → (count l (run es (new_job_queue capacity workers)).executed
        ≡ count l (run es (new_job_queue capacity workers)).accepted)
      × (waiting_jobs l (run es (new_job_queue capacity workers)) ≡ 0)
      × ((run es (new_job_queue capacity workers)).executing ≡ [])
unfolding new_job_queue orderly sum
stopped_executed_all l capacity workers es h =
    let q = run es (new_job_queue capacity workers) in
    let empty = stopped-empty l q h (run-orderly es (new_job_queue capacity workers) refl) in
    let nobody : count l q.executing ≡ 0 = ap (count l) empty.1 in
    (omega (arith, jobs-IsAccounted l capacity workers es, empty.0, nobody), empty.0, empty.1)
