-- ===== src/JobQueue/Accounting.antt =====
-- Every accepted job is at one place, backend/framework/jobs.go and backend/framework/jobs_delayed.go.
use bridra.Common.{ℕ, zero, suc, ◌+◌, ◌≡◌, refl, Bool, ◌&&◌, Option, List, [], ◌∷◌, if_rule, arith}
use bridra.Common.Sums.{sum, sum-append, one, count}
use bridra.JobQueue.Queue.{
  Queue, QueueState, Dispatch, sending, delaying, new_job_queue, is_stopping,
}
use bridra.JobQueue.Dispatching.{DispatchError, prepare_job_dispatch}
use bridra.JobQueue.Steps.{
  Event, take, finish_at, start, shut_down, close_schedule, close_jobs, end_shutdown,
  begin_dispatch, step, run, is_returned, none_left,
}
use bridra.JobQueue.Places.{IsAccounted, placed, promoted_one, waiting_jobs, proceeds-IsAccounted}
use bridra.JobQueue.Promotions.{
  receive-IsAccounted, fire-IsAccounted, promote-IsAccounted, stop_selecting-IsAccounted,
  flush-IsAccounted,
}

module _ (l : ℕ) where
  take-IsAccounted :
      (q : Queue) (jobs : List ℕ) → jobs ≡ q.jobs → IsAccounted l q → IsAccounted l (take q jobs)
  unfolding take waiting_jobs sum
  take-IsAccounted q jobs same balance = ground arith

  finish_at-count :
      (n : ℕ) (jobs : List ℕ)
      → count l (finish_at n jobs).0 + count l (finish_at n jobs).1 ≡ count l jobs
  unfolding finish_at sum
  finish_at-count n [] = refl
  finish_at-count zero (job ∷ rest) = omega arith
  finish_at-count (suc n) (job ∷ rest) = omega (arith, finish_at-count n rest)

  begin_dispatch-IsAccounted :
      (refusal : Option DispatchError) (d : Dispatch) (q : Queue)
      → placed l d ≡ 0
      → IsAccounted l q
      → IsAccounted l (begin_dispatch refusal d q)
  unfolding waiting_jobs sum
  begin_dispatch-IsAccounted refusal d q h balance = ground arith

  shut_down-IsAccounted :
      (ended : Bool) (q : Queue) (state : QueueState)
      → IsAccounted l q
      → IsAccounted l (shut_down ended q state)
  unfolding shut_down waiting_jobs
  shut_down-IsAccounted ended q state balance = ground arith

  start-IsAccounted :
      (q : Queue) (state : QueueState) → IsAccounted l q → IsAccounted l (start q state)
  unfolding start waiting_jobs promoted_one
  start-IsAccounted q state balance = ground arith

  step-IsAccounted : (e : Event) (q : Queue) → IsAccounted l q → IsAccounted l (step e q)
  unfolding step waiting_jobs placed close_schedule close_jobs end_shutdown
  step-IsAccounted (Event.dispatches_job ended has_handler job) q h =
      begin_dispatch-IsAccounted (prepare_job_dispatch ended has_handler q) (sending job) q refl h
  step-IsAccounted (Event.dispatches_at ended has_handler job ready_at) q h =
      begin_dispatch-IsAccounted (prepare_job_dispatch ended has_handler q) (delaying job ready_at)
        q refl h
  step-IsAccounted (Event.proceeds n choice) q h = proceeds-IsAccounted l n choice q h
  step-IsAccounted Event.receives q h = receive-IsAccounted l q q.scheduled q.scheduler h refl refl
  step-IsAccounted (Event.fires now) q h = fire-IsAccounted l now q q.scheduler refl h
  step-IsAccounted Event.promotes q h = promote-IsAccounted l q q.scheduler refl h
  step-IsAccounted Event.stops_selecting q h = stop_selecting-IsAccounted l q q.scheduler refl h
  step-IsAccounted Event.flushes q h = flush-IsAccounted l q q.scheduled q.scheduler refl h
  step-IsAccounted Event.takes q h = take-IsAccounted q q.jobs refl h
  step-IsAccounted (Event.finishes n) q h = omega (
    arith,
    h,
    finish_at-count n q.executing,
    sum-append (one l) (finish_at n q.executing).1 q.executed,
  )
  step-IsAccounted Event.starts q h = start-IsAccounted q q.state h
  step-IsAccounted (Event.shuts_down ended) q h = shut_down-IsAccounted ended q q.state h
  step-IsAccounted Event.closes_schedule q h =
      if_rule (IsAccounted l) (is_stopping q.state && none_left q.dispatches) _ q h h
  step-IsAccounted Event.closes_jobs q h =
      if_rule (IsAccounted l) (is_stopping q.state && is_returned q.scheduler) _ q h h
  step-IsAccounted Event.ends_shutdown q h =
      if_rule (IsAccounted l)
        (is_stopping q.state && q.jobs_closed && none_left q.jobs && none_left q.executing) _ q h h

  run-IsAccounted : (es : List Event) (q : Queue) → IsAccounted l q → IsAccounted l (run es q)
  unfolding run
  run-IsAccounted [] q h = h
  run-IsAccounted (e ∷ es) q h = run-IsAccounted es (step e q) (step-IsAccounted e q h)

  -- From a new queue without a store, under every interleaving of dispatches, the scheduler, the
  -- workers, Start and Shutdown: each job has been accepted as often as it waits, is being executed or
  -- has been executed. No accepted job is lost, and none is executed twice.
  pub jobs-IsAccounted :
      (capacity workers : ℕ) (es : List Event)
      → IsAccounted l (run es (new_job_queue capacity workers))
  unfolding new_job_queue waiting_jobs sum promoted_one
  jobs-IsAccounted capacity workers es = run-IsAccounted es (new_job_queue capacity workers) refl
