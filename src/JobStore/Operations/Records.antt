-- ===== src/JobStore/Operations/Records.antt =====
-- FileJobStore of backend/framework/file_job_store.go, the order in which Reserve selects, and the
-- records that the operations store.
use bridra.Common.{
  ℕ, ◌+◌, Bool, not, ◌&&◌, ◌||◌, Option, none, some, List, [], ◌∷◌, String, ltb, ◌==◌, ◌=s=◌,
  if◌then◌else◌, keep_if, map, head?,
}
use bridra.Common.Texts.{codes, before}
use bridra.Common.Dict.{insert, delete}
use bridra.JobStore.Job.{
  context_done, store_closed, Result, ok, err, Context, done, StoredJob, JobReservation,
  FileStoredJob, is_zero,
}
use bridra.JobStore.Log.{File, Jobs}

-- FileJobStore
pub record Store : Type 0 where
  pub max_jobs : ℕ
  pub max_payload_bytes : ℕ
  pub jobs : Jobs
  pub closed : Bool
  pub file : File

-- FileJobStore.ready
unfoldable pub ready : Context → Store → Result (Unit {0})
ready done store = err context_done
ready _ store = if store.closed then err store_closed else ok tt

-- The test by which Reserve skips a record, negated.
unfoldable pub eligible : ℕ → FileStoredJob → Bool
eligible now r = not (
    not (is_zero r.failed_at)
    || ltb now r.job.available_at
    || (not (r.reservation_token =s= "") && ltb now r.reserved_until))

-- The order in which Reserve sorts: by the time it is due, by the time it came, by identifier.
unfoldable pub precedes : StoredJob → StoredJob → Bool
precedes a b =
    if not (a.available_at == b.available_at)
    then ltb a.available_at b.available_at
    else if not (a.enqueued_at == b.enqueued_at)
    then ltb a.enqueued_at b.enqueued_at
    else before (codes a.id) (codes b.id)

-- sort.Slice, on an order without ties.
module _ {A : Type 0} (less : A → A → Bool) where
  unfoldable pub insert_sorted : A → List A → List A
  insert_sorted x [] = x ∷ []
  insert_sorted x (y ∷ ys) = if less y x then y ∷ insert_sorted x ys else x ∷ y ∷ ys

  unfoldable pub sort_slice : List A → List A
  unfolding insert_sorted
  sort_slice [] = []
  sort_slice (x ∷ xs) = insert_sorted x (sort_slice xs)

abbrev pub values : Jobs → List FileStoredJob
values = map λ entry. entry.1

unfoldable pub select : ℕ → Jobs → Option FileStoredJob
unfolding sort_slice
select now jobs =
    head? (sort_slice (λ a b. precedes a.job b.job) (keep_if (eligible now) (values jobs)))

abbrev pub reservation_of : FileStoredJob → JobReservation
reservation_of r = record {
  job = r.job;
  token = r.reservation_token;
  reserved_until = r.reserved_until;
}

-- The record that Reserve stores.
abbrev pub reserved : String → ℕ → FileStoredJob → FileStoredJob
reserved token until r = record r {
  job = record r.job { attempts = r.job.attempts + 1 };
  reservation_token = token;
  reserved_until = until;
}

-- The records that Release, Fail and RetryFailed store.
abbrev pub released : ℕ → String → FileStoredJob → FileStoredJob
released available_at message r = record r {
  job = record r.job { available_at = available_at };
  reservation_token = "";
  reserved_until = 0;
  last_error = message;
}

abbrev pub failed : ℕ → String → FileStoredJob → FileStoredJob
failed failed_at message r = record r {
  reservation_token = "";
  reserved_until = 0;
  failed_at = failed_at;
  last_error = message;
}

abbrev pub retried : ℕ → FileStoredJob → FileStoredJob
retried available_at r = record r {
  job = record r.job { attempts = 0; available_at = available_at };
  failed_at = 0;
  last_error = "";
}

-- store.jobs[id] = updated, or delete(store.jobs, id)
abbrev pub put_or_delete : String → Option FileStoredJob → Jobs → Jobs
put_or_delete id none jobs = delete id jobs
put_or_delete id (some r) jobs = insert id r jobs
