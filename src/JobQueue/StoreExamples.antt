-- ===== src/JobQueue/StoreExamples.antt =====
-- A queue of backend/framework/jobs_persistent.go over a FileJobStore, with one worker and a handler
-- that panics at first.
use bridra.Common.{◌≤◌, ◌≡◌, refl, false, true, none, some, List, [], ◌∷◌, String, All, arith, pos}
use bridra.Common.Dict.{Dict, lookup, insert}
use bridra.Common.Sums.{sum}
use bridra.JobStore.Job.{Context, Json, valid_job_identifier}
use bridra.JobStore.Log.{Event, Write}
use bridra.JobStore.Operations.{Store}
use bridra.JobStore.Invariant.{new_store-IsWellFormed}
use bridra.JobStore.Events.{IsId-ne-empty}
use bridra.JobStore.Job.{validate_stored_job, normalize_error}
use bridra.JobStore.Log.{append}
use bridra.Common.Texts.{is_blank}
use bridra.Common.{keep_if}
use bridra.JobStore.Operations.{
  enqueue_job, reserve_job, release_job, complete_job, finish_reservation, finish_record, admit,
  ready, commit, select, eligible, sort_slice, insert_sorted, reserve_record,
}
use bridra.JobQueue.Executing.{execute_attempt}
use bridra.JobQueue.Persistent.{execute_with, settle_attempt}
use bridra.JobQueue.Workers.{persist_job, turn_at, turn}
use bridra.Common.Dict.{delete}
use bridra.JobStore.History.{new_store}
use bridra.JobStore.Job.{FileStoredJob}
use bridra.JobStore.Operations.{reservation_of}
use bridra.JobQueue.Fates.{Fate}
use bridra.JobQueue.Settling.{execute_persistent_settles}
use bridra.JobQueue.Persistent.{execute_persistent}
use bridra.JobQueue.Executing.{Outcome, returns, panics}
use bridra.JobQueue.Handlers.{HandlerEntry, Registration, new_handlers, handle_jobs}
use bridra.JobQueue.Registered.{IsRegistry, handle_jobs-IsRegistry}
use bridra.JobQueue.Persistent.{Failure}
use bridra.JobQueue.FileCalls.{FileInput, file_store, IsSoundInput}
use bridra.JobQueue.Workers.{
  PersistentEvent, persists, works, Inputs, timer_fires, persistent_run, persistent_step,
  start_persistent,
}
use bridra.JobQueue.Uses.{IsSoundEvent, dispatches_of, done}
use bridra.JobQueue.Within.{IsAllowed}
use bridra.JobQueue.OverFile.{job_attempted_once}

abbrev mail_registration : Registration
mail_registration = record {
  name = " mail ";
  has_handler = true;
  options = record { max_attempts = pos 2; retry_backoff = pos 0 };
  job_type = "Mail";
  decode = λ payload. some 7;
}

-- The same name for another type, which is refused.
abbrev registrations : List Registration
registrations =
    mail_registration ∷ record mail_registration { job_type = "Letter"; name = "mail" } ∷ []

handle_jobs-IsRegistry_example : IsRegistry (handle_jobs registrations (new_handlers true))
handle_jobs-IsRegistry_example = handle_jobs-IsRegistry true registrations

abbrev mail : HandlerEntry
mail = record {
  job_type = "Mail";
  name = "mail";
  options = record { max_attempts = 2; retry_backoff = 0 };
  decode = λ payload. some 7;
}

abbrev handlers : Dict HandlerEntry
handlers = ("mail", mail) ∷ []

abbrev job_id : String
job_id = "aaaaaaaaaaaaaaaaaaaaaaaaaaaaaaaaaaaaaaaaaaaaaaaaaaaaaaaaaaaaaaaa"

abbrev first_token : String
first_token = "bbbbbbbbbbbbbbbbbbbbbbbbbbbbbbbbbbbbbbbbbbbbbbbbbbbbbbbbbbbbbbbb"

abbrev plain_json : Json Event
plain_json = record { valid = λ payload. true; line_bytes = λ event. 1 }

abbrev text : Failure → String
text failure = "failed"

abbrev input : FileInput
input = record {
  context = Context.live;
  write = Write.written;
  token = some first_token;
  clock = 5;
}

abbrev turn_with : Outcome → Inputs FileInput
turn_with outcome = record {
  cancelled = false;
  input = input;
  now = 5;
  outcome = λ value. outcome;
  wait = timer_fires;
}

abbrev events : List (PersistentEvent FileInput)
events =
    persists input (some job_id) (some (1 ∷ [])) "mail" 3 4
    ∷ works 0 (turn_with (panics 1))
    ∷ works 0 (turn_with (panics 1))
    ∷ works 0 (turn_with (returns none))
    ∷ works 0 (turn_with (returns none))
    ∷ []

input-IsSoundInput : IsSoundInput input
unfolding valid_job_identifier
input-IsSoundInput = (refl, omega arith)

sound_events : All (IsSoundEvent IsSoundInput) events
sound_events = let sound = input-IsSoundInput in (sound, (sound, (sound, (sound, (sound, tt)))))

job_attempted_once_example :
    (sum
        (done job_id 1)
        (persistent_run
          (file_store plain_json)
          text
          events
          (start_persistent (new_store 4 100) handlers 60 1)).executed
      ≤ 1)
    × All
        (IsAllowed handlers)
        (persistent_run
          (file_store plain_json)
          text
          events
          (start_persistent (new_store 4 100) handlers 60 1)).executed
unfolding dispatches_of sum lookup
job_attempted_once_example =
    job_attempted_once plain_json text (new_store 4 100) handlers 60 1 events job_id 1
      (new_store-IsWellFormed 4 100) refl sound_events (omega arith)

-- Two attempts are made, and the job is gone.
executed_twice :
    (persistent_run
      (file_store plain_json)
      text
      events
      (start_persistent (new_store 4 100) handlers 60 1)).executed
    ≡ record { id = job_id; handler = "mail"; attempt = 2 }
      ∷ record { id = job_id; handler = "mail"; attempt = 1 }
      ∷ []
unfolding persistent_run persistent_step start_persistent persist_job turn_at turn file_store
    enqueue_job reserve_job release_job complete_job finish_reservation finish_record admit ready
    commit append lookup insert delete select eligible sort_slice reserve_record validate_stored_job
    valid_job_identifier is_blank execute_persistent execute_with settle_attempt execute_attempt
    normalize_error insert_sorted keep_if
executed_twice = refl

abbrev reserved_record : FileStoredJob
reserved_record = record {
  job = record {
    id = job_id;
    handler = "mail";
    payload = 1 ∷ [];
    available_at = 4;
    enqueued_at = 4;
    attempts = 1;
  };
  reservation_token = first_token;
  reserved_until = 65;
  failed_at = 0;
  last_error = "";
}

abbrev reserving_store : Store
reserving_store = record (new_store 4 100) { jobs = (job_id, reserved_record) ∷ [] }

-- The first attempt panics, and the job is returned.
execute_persistent_settles_example :
    Fate
      (reservation_of reserved_record)
      (some mail)
      (λ value. panics 1)
      text
      input.clock
      5
      reserved_record
      (
        some (record reserved_record {
          reservation_token = "";
          reserved_until = 0;
          job = record reserved_record.job { available_at = 5 };
          last_error = "failed";
        }),
        [],
      )
unfolding lookup valid_job_identifier normalize_error execute_attempt execute_persistent file_store
    release_job append insert
execute_persistent_settles_example =
    execute_persistent_settles plain_json text input 5 (reservation_of reserved_record)
      reserving_store reserved_record refl refl (IsId-ne-empty job_id refl)
      (IsId-ne-empty first_token refl) refl refl handlers (λ value. panics 1) (omega arith)
