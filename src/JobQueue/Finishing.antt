-- ===== src/JobQueue/Finishing.antt =====
-- Shutdown comes to its end, backend/framework/jobs.go and backend/framework/jobs_delayed.go.
use bridra.Common.{
  ◌≢◌, ◌∙◌, ℕ, zero, suc, ◌≤◌, ◌<◌, ◌≡◌, refl, sym, true, false, List, [], ◌∷◌, arith, ◌⊎◌, inl,
  inr, Option-cases, Bool-cases,
}
use bridra.JobQueue.Queue.{
  Queue, QueueState, stopping, stopped, Dispatch, ScheduledJob, Scheduler, not_started,
  new_job_queue, selecting, draining, flushing, returned, promoting, flushing_one, pop,
  has_stopping,
}
use bridra.JobQueue.Dispatching.{prepare_job_dispatch, gives_up}
use bridra.JobQueue.Steps.{
  Event, receive, fire, promote, stop_selecting, flush, take, start, shut_down, close_schedule,
  close_jobs, end_shutdown, step, run,
}
use bridra.JobQueue.Stopping.{orderly, advance_at-Keeps, step-orderly, run-orderly}
use bridra.JobQueue.Advancing.{
  work_left, Advances, finishes_one, takes_one, promotes_one, receives_one, proceeds_one,
  closes_schedule_next, stops_selecting_next, flushes_next, returns_next, flushes_one,
  closes_jobs_next, ends_next,
}

-- Something can happen that brings the end nearer.
abbrev Progresses : Queue → Type 0
Progresses q = (e : Event) × Advances q (step e q)

selecting-Progresses :
    (q : Queue) (scheduled : List ScheduledJob) (dispatches : List Dispatch)
    → scheduled ≡ q.scheduled
    → dispatches ≡ q.dispatches
    → 1 ≤ q.capacity
    → q.scheduler ≡ selecting
    → q.state ≡ stopping
    → Progresses q
selecting-Progresses q (s ∷ rest) dispatches full same room at_work at_stop =
    (Event.receives, receives_one q s rest full (inl at_work) at_stop)
selecting-Progresses q [] (d ∷ rest) full same room at_work at_stop =
    (Event.proceeds 0 (gives_up false), proceeds_one q d rest same full room at_stop)
selecting-Progresses q [] [] full same room at_work at_stop = elim (Bool-cases q.schedule_stop) [
  | inl asked ↦ (Event.stops_selecting, stops_selecting_next q at_work asked at_stop)
  | inr unasked ↦ (Event.closes_schedule, closes_schedule_next q same unasked at_stop)
]

draining-Progresses :
    (q : Queue) (scheduled : List ScheduledJob)
    → scheduled ≡ q.scheduled
    → q.scheduler ≡ draining
    → q.state ≡ stopping
    → Progresses q
draining-Progresses q (s ∷ rest) full at_work at_stop =
    (Event.receives, receives_one q s rest full (inr at_work) at_stop)
draining-Progresses q [] full at_work at_stop = (Event.flushes, flushes_next q full at_work at_stop)

flushing-Progresses : (q : Queue) → q.scheduler ≡ flushing → q.state ≡ stopping → Progresses q
flushing-Progresses q at_work at_stop = elim (Option-cases (pop q.pending)) [
  | inl e ↦ (Event.flushes, returns_next q e at_work at_stop)
  | inr (popped, e) ↦ (Event.flushes, flushes_one q popped e at_work at_stop)
]

returned-Progresses :
    (q : Queue)
    → [] ≡ q.jobs
    → [] ≡ q.executing
    → q.scheduler ≡ returned
    → q.state ≡ stopping
    → Progresses q
returned-Progresses q none_ahead idle at_work at_stop = elim (Bool-cases q.jobs_closed) [
  | inl closed ↦ (Event.ends_shutdown, ends_next q none_ahead idle closed at_stop)
  | inr unclosed ↦ (Event.closes_jobs, closes_jobs_next q at_work unclosed at_stop)
]

started : (q : Queue) → orderly q ≡ true → q.state ≡ stopping → q.scheduler ≢ not_started
unfolding orderly
started q o at_stop h = ground arith

stopping-Progresses :
    (q : Queue) (jobs executing : List ℕ) (scheduler : Scheduler)
    → jobs ≡ q.jobs
    → executing ≡ q.executing
    → scheduler ≡ q.scheduler
    → orderly q ≡ true
    → 1 ≤ q.capacity
    → 1 ≤ q.workers
    → q.state ≡ stopping
    → Progresses q
stopping-Progresses q jobs (job ∷ rest) scheduler ahead busy same o room hands at_stop =
    (Event.finishes 0, finishes_one q job rest busy at_stop)
stopping-Progresses q (job ∷ rest) [] scheduler ahead busy same o room hands at_stop =
    (Event.takes, takes_one q job rest ahead busy hands at_stop)
stopping-Progresses q [] [] not_started ahead busy same o room hands at_stop =
    absurd (started q o at_stop (sym same))
stopping-Progresses q [] [] selecting ahead busy same o room hands at_stop =
    selecting-Progresses q q.scheduled q.dispatches refl refl room (sym same) at_stop
stopping-Progresses q [] [] draining ahead busy same o room hands at_stop =
    draining-Progresses q q.scheduled refl (sym same) at_stop
stopping-Progresses q [] [] flushing ahead busy same o room hands at_stop =
    flushing-Progresses q (sym same) at_stop
stopping-Progresses q [] [] returned ahead busy same o room hands at_stop =
    returned-Progresses q ahead busy (sym same) at_stop
stopping-Progresses q [] [] (promoting s) ahead busy same o room hands at_stop =
    (Event.promotes, promotes_one q s ahead (inl (sym same)) room at_stop)
stopping-Progresses q [] [] (flushing_one s) ahead busy same o room hands at_stop =
    (Event.promotes, promotes_one q s ahead (inr (sym same)) room at_stop)

-- Events that bring the queue to its stop.
abbrev pub CanStop : Queue → Type 0
CanStop q = (es : List Event) × ((run es q).state ≡ stopped)

stopping_or_stopped :
    (state : QueueState) → has_stopping state ≡ true → (state ≡ stopped) ⊎ (state ≡ stopping)
stopping_or_stopped state h = ground arith

finishes_within :
    (fuel : ℕ) (q : Queue)
    → work_left q < fuel
    → orderly q ≡ true
    → 1 ≤ q.capacity
    → 1 ≤ q.workers
    → has_stopping q.state ≡ true
    → CanStop q
unfolding run
finishes_within zero q lt o room hands h = absurd (omega (arith, lt))
finishes_within (suc fuel) q lt o room hands h = elim (stopping_or_stopped q.state h) [
  | inl e ↦ ([], e)
  | inr at_stop ↦
      let (e, a) =
        stopping-Progresses q q.jobs q.executing q.scheduler refl refl refl o room hands at_stop in
      let (es, done) =
        finishes_within fuel (step e q) (omega (arith, lt, a.less)) (step-orderly e q o)
          (omega (arith, room, a.same_capacity)) (omega (arith, hands, a.same_workers)) a.stops in
      (e ∷ es, done)
]

abbrev SameOptions : Queue → Queue → Type 0
SameOptions q r = (r.capacity ≡ q.capacity) × (r.workers ≡ q.workers)

step-SameOptions : (e : Event) (q : Queue) → SameOptions q (step e q)
unfolding step prepare_job_dispatch receive fire promote stop_selecting flush take start shut_down
    close_schedule close_jobs end_shutdown
step-SameOptions (Event.proceeds n choice) q =
    let kept = advance_at-Keeps n choice q q.dispatches in (kept.same_capacity, kept.same_workers)
step-SameOptions (Event.finishes n) q = (refl, refl)
step-SameOptions e q = ground arith

run-SameOptions : (es : List Event) (q : Queue) → SameOptions q (run es q)
unfolding run
run-SameOptions [] q = (refl, refl)
run-SameOptions (e ∷ es) q =
    let (capacity, workers) = run-SameOptions es (step e q) in
    let (at_step, of_step) = step-SameOptions e q in (capacity ∙ at_step, workers ∙ of_step)

-- From a new queue without a store, with at least one place and one worker, under every interleaving
-- of dispatches, the scheduler, the workers, Start and Shutdown: wherever Shutdown has begun, further
-- events bring the queue to its stop. No interleaving leaves Shutdown waiting for something that
-- cannot happen.
pub shutdown_finishes :
    (capacity workers : ℕ) (es : List Event)
    → 1 ≤ capacity
    → 1 ≤ workers
    → has_stopping (run es (new_job_queue capacity workers)).state ≡ true
    → CanStop (run es (new_job_queue capacity workers))
unfolding new_job_queue orderly
shutdown_finishes capacity workers es room hands h =
    let q = run es (new_job_queue capacity workers) in
    let (same_capacity, same_workers) = run-SameOptions es (new_job_queue capacity workers) in
    finishes_within (suc (work_left q)) q (omega arith)
      (run-orderly es (new_job_queue capacity workers) refl) (omega (arith, room, same_capacity))
      (omega (arith, hands, same_workers)) h
