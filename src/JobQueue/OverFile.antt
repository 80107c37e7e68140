-- ===== src/JobQueue/OverFile.antt =====
-- FileJobStore of backend/framework/file_job_store.go as the store of a queue.
use bridra.Common.{ℕ, ◌≡◌, refl, ap, Option, none, some, String, List, All, ◌≤◌}
use bridra.Common.Dict.{Dict, lookup}
use bridra.JobStore.Job.{Context, Json}
use bridra.JobStore.Log.{Event}
use bridra.JobStore.Operations.{Store}
use bridra.JobStore.History.{enqueues, reserves, releases, completes, fails, step}
use bridra.JobStore.Updates.{IsSoundCall, step-Effect}
use bridra.JobStore.Invariant.{IsWellFormed, step-IsWellFormed}
use bridra.Common.Sums.{sum}
use bridra.JobQueue.Persistent.{Failure}
use bridra.JobQueue.Handlers.{HandlerEntry}
use bridra.JobQueue.Workers.{PersistentEvent, persistent_run, start_persistent}
use bridra.JobQueue.Uses.{IsSoundEvent, dispatches_of, done}
use bridra.JobQueue.Attempts.{attempt_made_once}
use bridra.JobQueue.Within.{IsAllowed, executed-IsAllowed}
use bridra.JobQueue.StoreLaws.{IsJobStore}
use bridra.JobQueue.FileCalls.{
  FileInput, IsSoundInput, IsSoundToken, file_store, stored_attempts, attempts_of, IsEnd,
  IsAdmission, effect-Ages, effect-Adds, reserve-Counts_of,
}

reserve-IsSoundCall :
    (ctx : Context) (now lease : ℕ) (token : Option String)
    → IsSoundToken token
    → IsSoundCall (reserves ctx token now lease)
reserve-IsSoundCall ctx now lease none sound = tt
reserve-IsSoundCall ctx now lease (some token) sound = sound

-- A FileJobStore counts attempts on well-formed stores, where random tokens are valid and the clock
-- is past the zero time.
pub file_store_laws : (json : Json Event) → IsJobStore (file_store json)
unfolding file_store step
file_store_laws json = record {
  IsGood = IsWellFormed;
  IsSound = IsSoundInput;
  attempts = stored_attempts;
  enqueue-IsGood = λ i job s f v. step-IsWellFormed json s i.write (enqueues i.context job) f tt;
  enqueue-Adds = λ i job s id f v.
      effect-Adds json s id job
        (step-Effect (IsAdmission job) json s i.write (enqueues i.context job) f.sound tt refl);
  reserve-IsGood = λ i now lease s f v.
      step-IsWellFormed json s i.write (reserves i.context i.token now lease) f
        (reserve-IsSoundCall i.context now lease i.token v.0);
  reserve-Counts = λ i now lease s id f v.
      reserve-Counts_of json s id i.context i.write i.token now lease _ refl f;
  release-IsGood = λ i r at message s f v.
      step-IsWellFormed json s i.write (releases Context.live r at message) f tt;
  release-Ages = λ i r at message s id f v.
      effect-Ages json s id
        (step-Effect IsEnd json s i.write (releases Context.live r at message) f.sound tt tt);
  complete-IsGood = λ i r s f v. step-IsWellFormed json s i.write (completes Context.live r) f tt;
  complete-Ages = λ i r s id f v.
      effect-Ages json s id
        (step-Effect IsEnd json s i.write (completes Context.live r) f.sound tt tt);
  fail-IsGood = λ i r message s f v.
      step-IsWellFormed json s i.write (fails Context.live i.clock r message) f v.1;
  fail-Ages = λ i r message s id f v.
      effect-Ages json s id
        (step-Effect IsEnd json s i.write (fails Context.live i.clock r message) f.sound v.1 tt);
}

-- A queue over a FileJobStore that is well-formed and does not hold a job, whose identifier is
-- dispatched at most once, with valid random tokens and a clock past the zero time: under every
-- interleaving of dispatches and workers, whatever the writes do and the handlers return, an attempt
-- at the job is made at most once; and every attempt that is made at any job is by the handler that is
-- registered under the job's handler name and no later than the last that this handler has.
pub job_attempted_once :
    (json : Json Event) (text : Failure → String) (s : Store) (handlers : Dict HandlerEntry)
    (lease n : ℕ) (es : List (PersistentEvent FileInput)) (id : String) (a : ℕ)
    → IsWellFormed s
    → lookup id s.jobs ≡ none
    → All (IsSoundEvent IsSoundInput) es
    → sum (dispatches_of id) es ≤ 1
    → let q = persistent_run (file_store json) text es (start_persistent s handlers lease n) in
      (sum (done id a) q.executed ≤ 1) × All (IsAllowed handlers) q.executed
unfolding file_store_laws
job_attempted_once json text s handlers lease n es id a f absent_job sound once =
    let laws = file_store_laws json in
    (
      attempt_made_once id a (file_store json) laws text s handlers lease n es f
          (ap attempts_of absent_job) sound once,
      executed-IsAllowed (file_store json) laws text handlers s lease n es f sound,
    )
