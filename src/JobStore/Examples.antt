-- ===== src/JobStore/Examples.antt =====
-- Runs and instances of the theorems on backend/framework/file_job_store.go.
use bridra.Common.{
  ℕ, ◌+◌, ◌≡◌, ◌≢◌, refl, inl, inr, true, false, some, List, [], ◌∷◌, String, arith, eq_iff,
  keep_if,
}
use bridra.Common.Dict.{lookup, insert}
use bridra.JobStore.Job.{
  Result, ok, err, Context, StoredJob, JobReservation, FileStoredJob, Json, fresh_record,
  valid_job_identifier, validate_stored_job, log_corrupt,
}
use bridra.JobStore.Log.{Event, Write, compact, append, read_back, replay, replay_line, apply_kind}
use bridra.JobStore.Operations.{
  Store, enqueue_job, reserve_job, complete_job, release_job, fail_job, retry_failed, select,
  eligible, open_store, reserved, precedes,
}
use bridra.JobStore.History.{Call, enqueues, reserves, completes, step, run, new_store}
use bridra.JobStore.Events.{Fits}
use bridra.JobStore.Invariant.{IsWellFormed, run-IsWellFormed, new_store-IsWellFormed}
use bridra.JobStore.Recovery.{IsDurable, open_store-run, open_store_after_crash}
use bridra.JobStore.Reserving.{
  Refused, reserve_job_exclusive, reserve_job_earliest, reserve_job_total,
  stale_reservation-Refused,
}
use bridra.JobStore.Due.{IsDue, NotAfter}
use bridra.JobStore.Failures.{fail_retry_eligible}
use bridra.JobStore.Corruption.{unsynced_complete_corrupts, oversized_payload_corrupts}

abbrev json : Json Event
json = record { valid = λ _. true; line_bytes = λ _. 300 }

abbrev id_a : String
id_a = "00000000000000000000000000000000000000000000000000000000000000aa"

abbrev id_b : String
id_b = "00000000000000000000000000000000000000000000000000000000000000bb"

abbrev token_a : String
token_a = "1111111111111111111111111111111111111111111111111111111111111111"

abbrev token_b : String
token_b = "2222222222222222222222222222222222222222222222222222222222222222"

abbrev job_at : String → ℕ → StoredJob
job_at id due = record {
  id = id;
  handler = "mail";
  payload = b'{' ∷ b'}' ∷ [];
  available_at = due;
  enqueued_at = 5;
  attempts = 0;
}

-- Two jobs come, the one that is due first is leased, and the write of a third fails.
abbrev morning : List (Write × Call)
morning =
    (Write.written, enqueues Context.live (job_at id_a 20))
    ∷ (Write.written, enqueues Context.live (job_at id_b 10))
    ∷ (Write.written, reserves Context.live (some token_a) 30 60)
    ∷ (Write.stopped_before, enqueues Context.live (job_at token_a 10))
    ∷ []

abbrev start : Store
start = new_store 2 100

abbrev leased_b : FileStoredJob
leased_b = reserved token_a 90 (fresh_record (job_at id_b 10))

after_morning :
    (run json start morning).jobs ≡ (id_a, fresh_record (job_at id_a 20)) ∷ (id_b, leased_b) ∷ []
unfolding run step enqueue_job reserve_job select validate_stored_job append precedes eligible
    lookup insert keep_if
after_morning = refl

fits : Fits json 100
fits e h = omega arith

open_store-run_example :
    open_store json 2 100 (run json start morning).file
    ≡ ok (record (run json start morning) { closed = false })
unfolding valid_job_identifier compact
open_store-run_example =
    open_store-run json 2 100 fits morning (tt, (tt, (tt, (tt, tt)))) (tt, (tt, (refl, (tt, tt))))
      (refl, (refl, (tt, (refl, tt))))

open_store_after_crash_example :
    open_store json 2 100
      (step json
        (run json start morning)
        Write.stopped_inside
        (reserves Context.live (some token_b) 95 60)).file
    ≡ ok (record (run json start morning) { closed = false })
unfolding valid_job_identifier compact
open_store_after_crash_example =
    open_store_after_crash json 2 100 fits morning (reserves Context.live (some token_b) 95 60)
      (tt, (tt, (tt, (tt, tt)))) (tt, (tt, (refl, (tt, tt)))) (refl, (refl, (tt, (refl, tt)))) refl
      tt

run-IsWellFormed_example : IsWellFormed (run json start morning)
unfolding valid_job_identifier
run-IsWellFormed_example =
    run-IsWellFormed json start morning (new_store-IsWellFormed 2 100) (tt, (tt, (refl, (tt, tt))))

abbrev waiting : Store
waiting = record {
  max_jobs = 2;
  max_payload_bytes = 100;
  jobs = (id_a, fresh_record (job_at id_a 20)) ∷ (id_b, fresh_record (job_at id_b 10)) ∷ [];
  closed = false;
  file = record { lines = []; partial = false };
}

waiting-IsWellFormed : IsWellFormed waiting
unfolding lookup valid_job_identifier
waiting-IsWellFormed = record {
  sound = (
    (refl, (refl, tt)),
    (
      record { keyed = refl; valid_key = refl; valid_token = inl refl },
      (record { keyed = refl; valid_key = refl; valid_token = inl refl }, tt),
    ),
  );
  bounded = omega arith;
}

abbrev reservation_b : JobReservation
reservation_b = record {
  job = record (job_at id_b 10) { attempts = 1 };
  token = token_a;
  reserved_until = 90;
}

abbrev granted_b : Result JobReservation × Store
granted_b = reserve_job json Context.live Write.written (some token_a) 30 60 waiting

granted_b_lem : granted_b ≡ (ok reservation_b, granted_b.1)
unfolding reserve_job select append precedes eligible keep_if
granted_b_lem = refl

-- Between the two calls another job comes; the second Reserve gets the other job.
abbrev meanwhile : List (Write × Call)
meanwhile = (Write.written, completes Context.live (record reservation_b { token = token_b })) ∷ []

abbrev granted_a : Result JobReservation × Store
granted_a =
    reserve_job json Context.live Write.written (some token_b) 89 60
      (run json granted_b.1 meanwhile)

abbrev reservation_a : JobReservation
reservation_a = record {
  job = record (job_at id_a 20) { attempts = 1 };
  token = token_b;
  reserved_until = 149;
}

granted_a_lem : granted_a ≡ (ok reservation_a, granted_a.1)
unfolding reserve_job complete_job run step select append precedes eligible keep_if lookup insert
granted_a_lem = refl

reserve_job_exclusive_example : reservation_a.job.id ≢ reservation_b.job.id
unfolding valid_job_identifier
reserve_job_exclusive_example =
    reserve_job_exclusive json waiting granted_b.1 Context.live Write.written (some token_a) 30 60
      reservation_b waiting-IsWellFormed refl granted_b_lem meanwhile (tt, tt)
      (inr (ground (arith, eq_iff token_b token_a)), tt) granted_a.1 Context.live Write.written
      (some token_b) 89 60 reservation_a (omega arith) granted_a_lem

job_a-IsDue : IsDue 30 (fresh_record (job_at id_a 20))
job_a-IsDue = record { unfailed = refl; arrived = omega arith; unleased = inl refl }

reserve_job_earliest_example :
    (r : FileStoredJob) × (lookup r.job.id waiting.jobs ≡ some r)
    × IsDue 30 r
    × (reservation_b.job ≡ record r.job { attempts = r.job.attempts + 1 })
    × (◌≡◌ {A = ℕ} 90 (30 + 60))
    × NotAfter r.job (job_at id_a 20)
unfolding lookup eligible
reserve_job_earliest_example =
    reserve_job_earliest json waiting 30 60 id_a (fresh_record (job_at id_a 20)) refl job_a-IsDue
      granted_b.1 Context.live Write.written (some token_a) reservation_b waiting-IsWellFormed
      granted_b_lem

reserve_job_total_example :
    (res : JobReservation) × (t : Store) × (reserve_job json Context.live Write.written
        (some token_a)
        30
        60
        waiting
      ≡ (ok res, t))
unfolding lookup eligible
reserve_job_total_example =
    reserve_job_total json waiting 30 60 id_a (fresh_record (job_at id_a 20)) refl job_a-IsDue
      token_a refl (omega arith) (omega arith)

abbrev leased : Store
leased = record waiting { jobs = (id_b, leased_b) ∷ [] }

abbrev stale : JobReservation
stale = record reservation_b { token = token_b }

stale_reservation-Refused_example :
    Refused leased (complete_job json Context.live Write.written stale leased)
    × Refused leased (release_job json Context.live Write.written stale 95 "late" leased)
    × Refused leased (fail_job json Context.live Write.written 95 stale "late" leased)
unfolding lookup
stale_reservation-Refused_example =
    stale_reservation-Refused json leased stale leased_b refl
      (ground (arith, eq_iff token_a token_b)) Context.live Write.written 95 "late"

abbrev buried : Result (Unit {0}) × Store
buried = fail_job json Context.live Write.written 95 reservation_b "boom" leased

abbrev revived : Result (Unit {0}) × Store
revived = retry_failed json Context.live Write.written id_b 120 buried.1

buried_lem : buried ≡ (ok tt, buried.1)
unfolding fail_job append lookup
buried_lem = refl

revived_lem : revived ≡ (ok tt, revived.1)
unfolding fail_job retry_failed append lookup insert
revived_lem = refl

fail_retry_eligible_example :
    (r r' : FileStoredJob) × (lookup id_b buried.1.jobs ≡ some r)
    × (eligible 130 r ≡ false)
    × (lookup id_b revived.1.jobs ≡ some r')
    × (eligible 130 r' ≡ true)
    × (r'.job.attempts ≡ 0)
    × (r'.last_error ≡ "")
fail_retry_eligible_example =
    fail_retry_eligible json leased buried.1 revived.1 Write.written Write.written Context.live
      Context.live reservation_b 95 120 "boom" (omega arith) buried_lem revived_lem 130

-- The store after an enqueue and a reserve of one job, with its log.
abbrev one_lease : Store
one_lease = run json (new_store 2 100) (
    (Write.written, enqueues Context.live (job_at id_b 10))
    ∷ (Write.written, reserves Context.live (some token_a) 30 60)
    ∷ [])

one_lease-IsWellFormed : IsWellFormed one_lease
unfolding valid_job_identifier
one_lease-IsWellFormed =
    run-IsWellFormed json (new_store 2 100) _ (new_store-IsWellFormed 2 100) (tt, (refl, tt))

one_lease-IsDurable : IsDurable json one_lease
unfolding run step enqueue_job reserve_job select validate_stored_job append precedes eligible
    keep_if lookup insert replay replay_line apply_kind read_back compact
one_lease-IsDurable = record { replays = refl; whole = refl }

abbrev again : Result JobReservation × Store
again =
    reserve_job json Context.live Write.written (some token_b) 95 60
      (complete_job json Context.live Write.unsynced reservation_b one_lease).1

abbrev reservation_again : JobReservation
reservation_again = record {
  job = record (job_at id_b 10) { attempts = 2 };
  token = token_b;
  reserved_until = 155;
}

again_lem : again ≡ (ok reservation_again, again.1)
unfolding run step enqueue_job reserve_job complete_job select validate_stored_job append precedes
    eligible keep_if lookup insert
again_lem = refl

one_lease_open : one_lease.closed ≡ false
unfolding run step enqueue_job reserve_job select validate_stored_job append precedes eligible
    keep_if lookup insert
one_lease_open = refl

one_lease_holds : lookup id_b one_lease.jobs ≡ some leased_b
unfolding run step enqueue_job reserve_job select validate_stored_job append precedes eligible
    keep_if lookup insert
one_lease_holds = refl

unsynced_complete_corrupts_example :
    open_store json 2 one_lease.max_payload_bytes again.1.file ≡ err log_corrupt
unfolding run step enqueue_job reserve_job select validate_stored_job append precedes eligible
    keep_if lookup insert
unsynced_complete_corrupts_example =
    unsynced_complete_corrupts json 2 one_lease again.1 reservation_b reservation_again leased_b 95
      60 (some token_b) one_lease-IsWellFormed one_lease-IsDurable one_lease_open one_lease_holds
      refl (ground (arith, eq_iff token_a "")) (ground (arith, eq_iff id_b "")) (omega arith)
      again_lem refl

-- A payload of three bytes that json.Marshal writes in eight.
abbrev angle : StoredJob
angle = record (job_at id_a 10) { payload = b'"' ∷ b'<' ∷ b'"' ∷ [] }

abbrev tight : Store
tight = new_store 2 3

tight-IsDurable : IsDurable json tight
unfolding replay
tight-IsDurable = record { replays = refl; whole = refl }

abbrev accepted : Result (Unit {0}) × Store
accepted = enqueue_job json Context.live Write.written angle tight

accepted_lem : accepted ≡ (ok tt, accepted.1)
unfolding enqueue_job validate_stored_job append lookup
accepted_lem = refl

oversized_payload_corrupts_example : open_store json 2 3 accepted.1.file ≡ err log_corrupt
unfolding compact
oversized_payload_corrupts_example =
    oversized_payload_corrupts json 2 tight angle accepted.1 tight-IsDurable accepted_lem
      (omega arith)
