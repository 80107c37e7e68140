-- ===== src/JobQueue/StoreLaws.antt =====
-- What a queue needs of its store, backend/framework/job_store.go: how the attempts of a job are
-- counted.
use bridra.Common.{ℕ, ◌+◌, ◌≡◌, ◌≢◌, ◌⊎◌, Option, none, some, String}
use bridra.JobStore.Job.{Result, ok, err, StoredJob, JobReservation}
use bridra.JobQueue.Persistent.{JobStore}

module _ {S : Type 0} (attempts : String → S → Option ℕ) (id : String) (s : S) where
  -- A call that ends or returns a job leaves a job's attempts, or the job is gone.
  abbrev pub Ages : Result (Unit {0}) × S → Type 0
  Ages o = (attempts id o.1 ≡ attempts id s) ⊎ (attempts id o.1 ≡ none)

  -- A call that adds a job leaves the others' attempts.
  abbrev pub Adds : StoredJob → Result (Unit {0}) × S → Type 0
  Adds job o =
      (attempts id o.1 ≡ attempts id s)
      ⊎ ((id ≡ job.id) × (attempts id s ≡ none) × (attempts id o.1 ≡ some job.attempts))

  -- A reservation is one attempt more at its job, and none at the others.
  abbrev pub Counts : Result JobReservation × S → Type 0
  Counts (err e, t) = attempts id t ≡ attempts id s
  Counts (ok r, t) =
      ((id ≢ r.job.id) × (attempts id t ≡ attempts id s))
      ⊎ ((id ≡ r.job.id)
          × ((a : ℕ) × (attempts id s ≡ some a)
              × (attempts id t ≡ some (a + 1))
              × (r.job.attempts ≡ a + 1)))

-- A store whose calls count attempts, on good stores and with sound inputs.
pub record IsJobStore {S I : Type 0} (store : JobStore S I) : Type 1 where
  pub IsGood : S → Type 0
  pub IsSound : I → Type 0
  pub attempts : String → S → Option ℕ
  pub enqueue-IsGood :
      (i : I) (job : StoredJob) (s : S) → IsGood s → IsSound i → IsGood (store.enqueue i job s).1
  pub enqueue-Adds :
      (i : I) (job : StoredJob) (s : S) (id : String)
      → IsGood s
      → IsSound i
      → Adds attempts id s job (store.enqueue i job s)
  pub reserve-IsGood :
      (i : I) (now lease : ℕ) (s : S)
      → IsGood s
      → IsSound i
      → IsGood (store.reserve i now lease s).1
  pub reserve-Counts :
      (i : I) (now lease : ℕ) (s : S) (id : String)
      → IsGood s
      → IsSound i
      → Counts attempts id s (store.reserve i now lease s)
  pub release-IsGood :
      (i : I) (r : JobReservation) (at : ℕ) (message : String) (s : S)
      → IsGood s
      → IsSound i
      → IsGood (store.release i r at message s).1
  pub release-Ages :
      (i : I) (r : JobReservation) (at : ℕ) (message : String) (s : S) (id : String)
      → IsGood s
      → IsSound i
      → Ages attempts id s (store.release i r at message s)
  pub complete-IsGood :
      (i : I) (r : JobReservation) (s : S) → IsGood s → IsSound i → IsGood (store.complete i r s).1
  pub complete-Ages :
      (i : I) (r : JobReservation) (s : S) (id : String)
      → IsGood s
      → IsSound i
      → Ages attempts id s (store.complete i r s)
  pub fail-IsGood :
      (i : I) (r : JobReservation) (message : String) (s : S)
      → IsGood s
      → IsSound i
      → IsGood (store.fail i r message s).1
  pub fail-Ages :
      (i : I) (r : JobReservation) (message : String) (s : S) (id : String)
      → IsGood s
      → IsSound i
      → Ages attempts id s (store.fail i r message s)
