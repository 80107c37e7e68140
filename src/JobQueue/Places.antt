-- ===== src/JobQueue/Places.antt =====
-- Where a job is, and the steps of its dispatch, backend/framework/jobs.go and
-- backend/framework/jobs_delayed.go.
use bridra.Common.{ℕ, zero, suc, ◌+◌, ◌≡◌, ap, List, [], ◌∷◌, arith}
use bridra.Common.Sums.{sum, sum-append, one, count}
use bridra.JobQueue.Queue.{
  Queue, Dispatch, sending, delaying, placing, ScheduledJob, Scheduler, promoting, flushing_one,
}
use bridra.JobQueue.Dispatching.{Choice, Advanced, advance, advance_at}
use bridra.JobQueue.Steps.{Event, step}

module _ (l : ℕ) where
  -- A dispatch whose job has been accepted: that which has a slot.
  unfoldable pub placed : Dispatch → ℕ
  placed (placing job ready_at) = one l job
  placed _ = 0

  abbrev pub scheduled_one : ScheduledJob → ℕ
  scheduled_one s = one l s.job

  unfoldable pub promoted_one : Scheduler → ℕ
  promoted_one (promoting s) = one l s.job
  promoted_one (flushing_one s) = one l s.job
  promoted_one _ = 0

  -- The times that a job waits: in a dispatch, in a channel, in the heap or with the scheduler.
  unfoldable pub waiting_jobs : Queue → ℕ
  waiting_jobs q =
      sum placed q.dispatches
      + count l q.jobs
      + sum scheduled_one q.scheduled
      + sum scheduled_one q.pending
      + promoted_one q.scheduler

  -- An accepted job waits, or is being executed, or has been.
  abbrev pub IsAccounted : Queue → Type 0
  IsAccounted q = count l q.accepted ≡ waiting_jobs q + count l q.executing + count l q.executed

  -- The step of a dispatch.
  record Moves (q : Queue) (dispatches : List Dispatch) (a : Advanced) : Type 0 where
    balance :
        count l a.queue.accepted
          + (sum placed dispatches + count l q.jobs + sum scheduled_one q.scheduled)
        ≡ count l q.accepted
          + (sum placed a.left + count l a.queue.jobs + sum scheduled_one a.queue.scheduled)
    same_pending : a.queue.pending ≡ q.pending
    same_scheduler : a.queue.scheduler ≡ q.scheduler
    same_executing : a.queue.executing ≡ q.executing
    same_executed : a.queue.executed ≡ q.executed

  advance-Moves :
      (q : Queue) (d : Dispatch) (choice : Choice) → Moves q (d ∷ []) (advance q d choice)
  unfolding advance sum placed
  advance-Moves q (sending job) choice = ground (arith, sum-append (one l) q.jobs (job ∷ []))
  advance-Moves q (delaying job ready_at) choice = ground arith
  advance-Moves q (placing job ready_at) choice = ground (
    arith,
    sum-append scheduled_one q.scheduled
        (record { job = job; ready_at = ready_at; sequence = 0 } ∷ []),
  )

  advance_at-Moves :
      (n : ℕ) (choice : Choice) (q : Queue) (dispatches : List Dispatch)
      → Moves q dispatches (advance_at n choice q dispatches)
  unfolding advance_at sum
  advance_at-Moves n choice q [] = ground arith
  advance_at-Moves zero choice q (d ∷ dispatches) =
      ground
        (arith, advance-Moves q d choice, sum-append placed (advance q d choice).left dispatches)
  advance_at-Moves (suc n) choice q (d ∷ dispatches) =
      ground (arith, advance_at-Moves n choice q dispatches)

  pub proceeds-IsAccounted :
      (n : ℕ) (choice : Choice) (q : Queue)
      → IsAccounted q
      → IsAccounted (step (Event.proceeds n choice) q)
  unfolding step waiting_jobs
  proceeds-IsAccounted n choice q h =
      let moved = advance_at-Moves n choice q q.dispatches in
      let pending = ap (sum scheduled_one) moved.same_pending in
      let scheduler = ap promoted_one moved.same_scheduler in
      let executing = ap (count l) moved.same_executing in
      let executed = ap (count l) moved.same_executed in
      omega (arith, h, moved.balance, pending, scheduler, executing, executed)
