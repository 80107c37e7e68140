-- ===== src/JobQueue/Uses.antt =====
-- How often an attempt at a job is used, backend/framework/jobs_persistent.go.
use bridra.Common.{
  ℕ, zero, suc, ◌+◌, ◌≤◌, ◌≡◌, ◌≢◌, ◌&&◌, ◌⊎◌, Option, none, some, String, ◌=s=◌, ◌==◌, leb,
  if◌then◌else◌, arith, eq_iff,
}
use bridra.JobQueue.Workers.{Worker, holding, Execution, PersistentEvent, persists, works}

-- The dispatches of a job
unfoldable pub dispatches_of : {I : Type 0} → String → PersistentEvent I → ℕ
dispatches_of id (persists i (some j) payload handler available_at enqueued_at) =
    if j =s= id then 1 else 0
dispatches_of id _ = 0

abbrev pub IsSoundEvent : {I : Type 0} → (I → Type 0) → PersistentEvent I → Type 0
IsSoundEvent IsSound (persists i j payload handler available_at enqueued_at) = IsSound i
IsSoundEvent IsSound (works n i) = IsSound i.input

module _ (id : String) (a : ℕ) where
  -- Whether a job and an attempt are the given ones, as 0 or 1.
  unfoldable pub use_of : String → ℕ → ℕ
  use_of j n = if (j =s= id) && (n == a) then 1 else 0

  unfoldable pub held : Worker → ℕ
  held (holding r) = use_of r.job.id r.job.attempts
  held _ = 0

  abbrev pub done : Execution → ℕ
  done e = use_of e.id e.attempt

  -- The uses of the attempt that the store has room for, after `k` dispatches of the job.
  unfoldable pub room : Option ℕ → ℕ → ℕ
  room (some n) k = if leb a n then 1 else 0
  room none zero = 0
  room none (suc k) = 1

  pub aged :
      (before after : Option ℕ) (k uses : ℕ)
      → (after ≡ before) ⊎ (after ≡ none)
      → (k ≡ 0 → before ≡ none)
      → uses ≤ room before k
      → (uses ≤ room after k) × (k ≡ 0 → after ≡ none)
  unfolding room
  aged before after k uses h fresh fits = ground arith

  pub counted :
      (j : String) (n : ℕ) (before after : Option ℕ) (k uses : ℕ)
      → ((id ≢ j) × (after ≡ before))
        ⊎ ((id ≡ j) × ((m : ℕ) × (before ≡ some m) × (after ≡ some (m + 1)) × (n ≡ m + 1)))
      → (k ≡ 0 → before ≡ none)
      → uses ≤ room before k
      → (use_of j n + uses ≤ room after k) × (k ≡ 0 → after ≡ none)
  unfolding room use_of
  counted j n before after k uses h fresh fits = ground (arith, eq_iff j id)

  pub added :
      (j : String) (before after : Option ℕ) (k uses : ℕ)
      → (after ≡ before) ⊎ ((id ≡ j) × (before ≡ none) × (after ≡ some 0))
      → (k ≡ 0 → before ≡ none)
      → uses ≤ room before k
      → (k + (if j =s= id then 1 else 0)) ≤ 1
      → (uses ≤ room after (k + (if j =s= id then 1 else 0)))
        × ((k + (if j =s= id then 1 else 0)) ≡ 0 → after ≡ none)
  unfolding room
  added j before after k uses h fresh fits once = ground (arith, eq_iff j id)

  pub room_later : (o : Option ℕ) (k l uses : ℕ) → k ≤ l → uses ≤ room o k → uses ≤ room o l
  unfolding room
  room_later o k l uses le h = ground arith
