-- ===== src/JobQueue/Dispatching.antt =====
-- Dispatches under way, backend/framework/jobs.go and backend/framework/jobs_delayed.go.
use bridra.Common.{
  ℕ, zero, suc, ◌+◌, Bool, not, ◌||◌, Option, none, some, List, [], ◌∷◌, ◌++◌, ltb, if◌then◌else◌,
  length,
}
use bridra.JobQueue.Queue.{Queue, Dispatch, sending, delaying, placing, is_collecting, has_stopping}

pub data DispatchError : Type 0 where
  context_ended queue_not_running queue_stopped handler_not_found : DispatchError

-- prepareJobDispatch, with what it reads of the context and of the handlers
unfoldable pub prepare_job_dispatch : Bool → Bool → Queue → Option DispatchError
prepare_job_dispatch ended has_handler q =
    if ended
    then some context_ended
    else if is_collecting q.state
    then some queue_not_running
    else if has_stopping q.state
    then some queue_stopped
    else if not has_handler
    then some handler_not_found
    else none

-- What a select of a dispatch takes: the send, or a channel that says to give up, which is that of the
-- context or the queue's `stopping`.
pub data Choice : Type 0 where
  goes : Choice
  gives_up : Bool → Choice

-- What a step makes of a dispatch: the queue, the dispatch's place, empty where it returned, and the
-- jobs that it put into the queue.
pub record Advanced : Type 0 where
  pub queue : Queue
  pub left : List Dispatch

abbrev pub waits : Queue → Dispatch → Advanced
waits q dispatch = record { queue = q; left = dispatch ∷ [] }

abbrev pub leaves : Queue → Advanced
leaves q = record { queue = q; left = [] }

-- DispatchJob and dispatchJobAt, from one channel operation to the next
unfoldable pub advance : Queue → Dispatch → Choice → Advanced
advance q (sending job) goes =
    if ltb (length q.jobs) q.capacity
    then leaves (record q { jobs = q.jobs ++ job ∷ []; accepted = job ∷ q.accepted })
    else waits q (sending job)
advance q (sending job) (gives_up ended) =
    if ended || has_stopping q.state then leaves q else waits q (sending job)
advance q (delaying job ready_at) goes =
    if ltb q.delayed_slots q.capacity
    then waits (record q { delayed_slots = q.delayed_slots + 1; accepted = job ∷ q.accepted })
        (placing job ready_at)
    else waits q (delaying job ready_at)
advance q (delaying job ready_at) (gives_up ended) =
    if ended || has_stopping q.state then leaves q else waits q (delaying job ready_at)
advance q (placing job ready_at) choice =
    if ltb (length q.scheduled) q.capacity
    then leaves (record q {
      scheduled = q.scheduled ++ record { job = job; ready_at = ready_at; sequence = 0 } ∷ [];
    })
    else waits q (placing job ready_at)

-- A step of the dispatch at a place of the list
unfoldable pub advance_at : ℕ → Choice → Queue → List Dispatch → Advanced
advance_at n choice q [] = leaves q
advance_at zero choice q (dispatch ∷ dispatches) =
    let step = advance q dispatch choice in record step { left = step.left ++ dispatches }
advance_at (suc n) choice q (dispatch ∷ dispatches) =
    let step = advance_at n choice q dispatches in record step { left = dispatch ∷ step.left }
