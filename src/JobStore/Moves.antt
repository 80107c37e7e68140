-- ===== src/JobStore/Moves.antt =====
-- The moves that the record of a job makes in backend/framework/file_job_store.go.
use bridra.Common.{
  ℕ, ◌+◌, ◌≡◌, ◌≢◌, sym, subst, ◌⊎◌, inl, inr, Option, none, some, String, arith, eq_iff,
  Bool-cases, ◌=s=◌,
}
use bridra.Common.Dict.{lookup, insert, delete, lookup-insert, lookup-insert_self, lookup-delete}
use bridra.JobStore.Job.{StoredJob, FileStoredJob}
use bridra.JobStore.Log.{Jobs}

-- One move of a job: it enters without attempts; one that has not failed is reserved under a token,
-- which counts an attempt; a reserved one is put back, removed, or marked as failed; and a failed one
-- starts again, without attempts, or is forgotten.
pub data Moves (id : String) : Option FileStoredJob → Option FileStoredJob → Type 0 where
  enters :
      (job : StoredJob)
      → job.id ≡ id
      → Moves id none (
          some (record {
            job = job;
            reservation_token = "";
            reserved_until = 0;
            failed_at = 0;
            last_error = "";
          }))
  is_reserved :
      (r : FileStoredJob) (token : String) (until : ℕ)
      → r.failed_at ≡ 0
      → Moves id (some r) (
          some (record {
            job = record r.job { attempts = r.job.attempts + 1 };
            reservation_token = token;
            reserved_until = until;
            failed_at = 0;
            last_error = r.last_error;
          }))
  is_returned :
      (r : FileStoredJob) (at : ℕ) (message : String)
      → r.reservation_token ≢ ""
      → Moves id (some r) (
          some (record {
            job = record r.job { available_at = at };
            reservation_token = "";
            reserved_until = 0;
            failed_at = r.failed_at;
            last_error = message;
          }))
  is_completed : (r : FileStoredJob) → r.reservation_token ≢ "" → Moves id (some r) none
  is_failed :
      (r : FileStoredJob) (at : ℕ) (message : String)
      → r.reservation_token ≢ ""
      → at ≢ 0
      → Moves id (some r) (
          some (record {
            job = r.job;
            reservation_token = "";
            reserved_until = 0;
            failed_at = at;
            last_error = message;
          }))
  is_retried :
      (r : FileStoredJob) (at : ℕ)
      → r.failed_at ≢ 0
      → at ≢ 0
      → Moves id (some r) (
          some (record {
            job = record r.job { attempts = 0; available_at = at };
            reservation_token = r.reservation_token;
            reserved_until = r.reserved_until;
            failed_at = 0;
            last_error = "";
          }))
  is_forgotten : (r : FileStoredJob) → r.failed_at ≢ 0 → Moves id (some r) none

-- An identifier's record is as it was, or it is the one under `k` and has made a move.
abbrev pub OneMoves : String → Jobs → Jobs → String → Type 0
OneMoves k jobs after id =
    (lookup id after ≡ lookup id jobs) ⊎ ((k ≡ id) × Moves id (lookup id jobs) (lookup id after))

module _ (jobs : Jobs) (k : String) where
  pub inserted-OneMoves :
      (new : FileStoredJob) (id : String)
      → Moves k (lookup k jobs) (some new)
      → OneMoves k jobs (insert k new jobs) id
  inserted-OneMoves new id m = elim (Bool-cases (k =s= id)) [
    | inr other ↦ inl (ground (arith, lookup-insert k id new jobs, other))
    | inl equal ↦
        let same : k ≡ id = ground (arith, eq_iff k id, equal) in
        inr (
          same,
          subst (λ i. Moves i (lookup i jobs) (lookup i (insert k new jobs))) same
              (subst (Moves k (lookup k jobs)) (sym (lookup-insert_self k new jobs)) m),
        )
  ]

  pub deleted-OneMoves :
      (id : String) → Moves k (lookup k jobs) none → OneMoves k jobs (delete k jobs) id
  deleted-OneMoves id m = elim (Bool-cases (k =s= id)) [
    | inr other ↦ inl (ground (arith, lookup-delete k id jobs, other))
    | inl equal ↦
        let same : k ≡ id = ground (arith, eq_iff k id, equal) in
        let gone : lookup k (delete k jobs) ≡ none =
          ground (arith, lookup-delete k k jobs, eq_iff k k) in
        inr (
          same,
          subst (λ i. Moves i (lookup i jobs) (lookup i (delete k jobs))) same
              (subst (Moves k (lookup k jobs)) (sym gone) m),
        )
  ]

  pub found-Moves :
      (r : FileStoredJob) (after : Option FileStoredJob)
      → lookup k jobs ≡ some r
      → Moves k (some r) after
      → Moves k (lookup k jobs) after
  found-Moves r after hit m = subst (λ o. Moves k o after) (sym hit) m
