-- ===== src/JobQueue/Examples.antt =====
-- A queue of backend/framework/jobs.go with one place, a delayed job and Shutdown, and a job with its attempts.
use bridra.Common.Sums.{count}
use bridra.Common.{
  arith, zero, suc, ℕ, ◌≡◌, refl, true, false, none, some, List, [], ◌∷◌, ℤ, pos, negsuc, err,
}
use bridra.JobQueue.Queue.{stopped, new_job_queue, pop, less}
use bridra.JobQueue.Dispatching.{prepare_job_dispatch, goes, advance, advance_at}
use bridra.JobQueue.Steps.{
  Event, dispatches_job, dispatches_at, proceeds, receives, promotes, stops_selecting, flushes,
  takes, fires, finishes, starts, closes_schedule, closes_jobs, ends_shutdown, shuts_down, step,
  run, receive, fire, promote, stop_selecting, flush, take, finish_at, start, shut_down,
  close_schedule, close_jobs, end_shutdown,
}
use bridra.JobQueue.Executing.{
  JobHandlerOptions, normalize_job_handler_options, invalid_job_handler_options, Outcome, returns,
  panics, execute_attempt, handler_panic, JobFailure, tries, waits, reports, wait_for_job_retry,
  failure_of, after_attempt, retry, execute_job,
}
use bridra.JobQueue.Retrying.{Ends, execute_job-Ends}
use bridra.JobQueue.Places.{IsAccounted, waiting_jobs}
use bridra.JobQueue.Accounting.{jobs-IsAccounted}
use bridra.JobQueue.Stopping.{stopped_executed_all}
use bridra.JobQueue.Finishing.{CanStop, shutdown_finishes}

abbrev events : List Event
events =
    starts
    ∷ dispatches_at false true 7 100
    ∷ proceeds 0 goes
    ∷ proceeds 0 goes
    ∷ receives
    ∷ dispatches_job false true 8
    ∷ proceeds 0 goes
    ∷ fires 50
    ∷ takes
    ∷ shuts_down false
    ∷ dispatches_job false true 9
    ∷ closes_schedule
    ∷ stops_selecting
    ∷ flushes
    ∷ flushes
    ∷ promotes
    ∷ flushes
    ∷ closes_jobs
    ∷ finishes 0
    ∷ takes
    ∷ finishes 0
    ∷ ends_shutdown
    ∷ []

-- The delayed job is executed before it is due, since Shutdown drains it.
drained : (run events (new_job_queue 1 1)).executed ≡ 7 ∷ 8 ∷ []
unfolding run step new_job_queue prepare_job_dispatch advance advance_at receive fire promote
    stop_selecting flush take finish_at start shut_down close_schedule close_jobs end_shutdown pop
    less
drained = refl

stopped_at_last : (run events (new_job_queue 1 1)).state ≡ stopped
unfolding run step new_job_queue prepare_job_dispatch advance advance_at receive fire promote
    stop_selecting flush take finish_at start shut_down close_schedule close_jobs end_shutdown pop
    less
stopped_at_last = refl

jobs-IsAccounted_example : IsAccounted 7 (run events (new_job_queue 1 1))
jobs-IsAccounted_example = jobs-IsAccounted 7 1 1 events

-- A handler that panics, then returns an error, then succeeds.
abbrev handle : ℕ → Outcome
handle (suc zero) = panics 4
handle (suc (suc zero)) = returns (some 5)
handle _ = returns none

abbrev three_attempts : JobHandlerOptions ℤ
three_attempts = record { max_attempts = pos 3; retry_backoff = pos 10 }

actions_of_three :
    execute_job handle (record { max_attempts = 3; retry_backoff = 10 })
    ≡ tries 1 ∷ waits 10 ∷ tries 2 ∷ waits 10 ∷ tries 3 ∷ []
unfolding execute_job retry after_attempt execute_attempt wait_for_job_retry
actions_of_three = refl

abbrev failure_of_one : JobFailure
failure_of_one = record {
  attempts = 1;
  max_attempts = 1;
  exhausted = false;
  cause = some (handler_panic 4);
}

actions_of_one :
    execute_job handle (record { max_attempts = 1; retry_backoff = 0 })
    ≡ tries 1 ∷ reports failure_of_one ∷ []
unfolding execute_job retry after_attempt execute_attempt wait_for_job_retry failure_of
actions_of_one = refl

refused_options :
    normalize_job_handler_options (record { max_attempts = negsuc 0; retry_backoff = pos 0 })
    ≡ err invalid_job_handler_options
unfolding normalize_job_handler_options
refused_options = refl

execute_job-Ends_example :
    Ends handle
      (record { max_attempts = 3; retry_backoff = 10 })
      1
      3
      (execute_job handle (record { max_attempts = 3; retry_backoff = 10 }))
unfolding normalize_job_handler_options
execute_job-Ends_example =
    execute_job-Ends handle three_attempts (record { max_attempts = 3; retry_backoff = 10 }) refl

-- The events up to Shutdown, with one job delayed, one waiting and the queue not drained.
abbrev begun : List Event
begun =
    starts
    ∷ dispatches_at false true 7 100
    ∷ proceeds 0 goes
    ∷ proceeds 0 goes
    ∷ dispatches_job false true 8
    ∷ proceeds 0 goes
    ∷ dispatches_job false true 9
    ∷ shuts_down false
    ∷ []

stopped_executed_all_example :
    (count 7 (run events (new_job_queue 1 1)).executed
      ≡ count 7 (run events (new_job_queue 1 1)).accepted)
    × (waiting_jobs 7 (run events (new_job_queue 1 1)) ≡ 0)
    × ((run events (new_job_queue 1 1)).executing ≡ [])
stopped_executed_all_example = stopped_executed_all 7 1 1 events stopped_at_last

shutdown_finishes_example : CanStop (run begun (new_job_queue 1 1))
unfolding run step new_job_queue prepare_job_dispatch advance advance_at start shut_down
shutdown_finishes_example = shutdown_finishes 1 1 begun (omega arith) (omega arith) refl
