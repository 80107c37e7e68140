-- ===== src/JobStore/Due.antt =====
-- Reserve's test and its order, of backend/framework/file_job_store.go, as relations on the fields.
use bridra.Common.{ℕ, ◌≡◌, ◌≤◌, ◌<◌, ◌⊎◌, ◌↔◌, true, false, arith, eq_iff}
use bridra.Common.Texts.{codes, before}
use bridra.JobStore.Job.{StoredJob, FileStoredJob}
use bridra.JobStore.Operations.{precedes, eligible}
use bridra.JobStore.Selection.{NoLater}

-- Reserve's test, read off the record: the job has not failed, its time has come, and no lease on
-- it is running.
pub record IsDue (now : ℕ) (r : FileStoredJob) : Type 0 where
  pub unfailed : r.failed_at ≡ 0
  pub arrived : r.job.available_at ≤ now
  pub unleased : (r.reservation_token ≡ "") ⊎ (r.reserved_until ≤ now)

eligible→IsDue : (now : ℕ) (r : FileStoredJob) → eligible now r ≡ true → IsDue now r
unfolding eligible
eligible→IsDue now r h = record {
  unfailed = ground (arith, eq_iff r.reservation_token "");
  arrived = ground (arith, eq_iff r.reservation_token "");
  unleased = ground (arith, eq_iff r.reservation_token "");
}

IsDue→eligible : (now : ℕ) (r : FileStoredJob) → IsDue now r → eligible now r ≡ true
unfolding eligible
IsDue→eligible now r h =
    let a = h.unfailed in
    let b = h.arrived in let c = h.unleased in ground (arith, eq_iff r.reservation_token "")

pub eligible-IsDue : (now : ℕ) (r : FileStoredJob) → (eligible now r ≡ true) ↔ IsDue now r
eligible-IsDue now r = (eligible→IsDue now r, IsDue→eligible now r)

-- The order of Reserve, read off the jobs: by due time, then by arrival, then by identifier.
abbrev pub NotAfter : StoredJob → StoredJob → Type 0
NotAfter a b =
    (a.available_at < b.available_at)
    ⊎ ((a.available_at ≡ b.available_at)
        × ((a.enqueued_at < b.enqueued_at)
            ⊎ ((a.enqueued_at ≡ b.enqueued_at) × (before (codes b.id) (codes a.id) ≡ false))))

pub NoLater-NotAfter : (a b : FileStoredJob) → NoLater a b → NotAfter a.job b.job
unfolding precedes
NoLater-NotAfter a b h = ground arith
