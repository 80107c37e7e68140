-- ===== src/JobStore/Leases.antt =====
-- While a lease of backend/framework/file_job_store.go runs, nobody else gets the job.
use mathlib.Core.Path.{subst}
use bridra.Common.{
  ℕ, ◌<◌, ◌≡◌, ◌≢◌, ◌⊎◌, inl, inr, true, false, none, some, List, [], ◌∷◌, String, arith, All,
  eq_iff,
}
use bridra.Common.Dict.{lookup, insert, delete, lookup-insert, lookup-delete}
use bridra.JobStore.Job.{FileStoredJob, Json}
use bridra.JobStore.Log.{
  Event, enqueue, reserve, release, complete, fail, retry, forget, other, Write, Jobs, append,
}
use bridra.JobStore.Operations.{Store, commit, close, eligible, ready}
use bridra.JobStore.History.{
  Call, enqueues, reserves, releases, completes, fails, retries, forgets, closes, step, run,
}
use bridra.JobStore.Updates.{
  Update, admitted, leased, returned, completed, buried, revived, forgotten, Effect, kept, shut,
  changed, IsSoundCall, Permits, step-Effect,
}
use bridra.JobStore.Invariant.{IsWellFormed, IsSoundHistory, step-IsWellFormed}

-- The job stands reserved under this token until this time, and it has not failed.
pub record IsLeased (id token : String) (until : ℕ) (s : Store) : Type 0 where
  pub holder : FileStoredJob
  pub bound : lookup id s.jobs ≡ some holder
  pub held : holder.reservation_token ≡ token
  pub ends : holder.reserved_until ≡ until
  pub alive : holder.failed_at ≡ 0

-- The calls that do not come from the holder, made before the lease ends.
abbrev pub IsOutsider : String → String → ℕ → Call → Type 0
IsOutsider id token until (reserves ctx t now lease) = now < until
IsOutsider id token until (releases ctx r at message) = (r.job.id ≢ id) ⊎ (r.token ≢ token)
IsOutsider id token until (completes ctx r) = (r.job.id ≢ id) ⊎ (r.token ≢ token)
IsOutsider id token until (fails ctx at r message) = (r.job.id ≢ id) ⊎ (r.token ≢ token)
IsOutsider id token until _ = Unit {0}

-- An event that names another job, or this job with another token, or that only a job which is not
-- reserved admits.
abbrev Spares : String → String → Event → Type 0
Spares id token (enqueue job) = Unit {0}
Spares id token (reserve j t until attempts) = j ≢ id
Spares id token (release j t at message) = (j ≢ id) ⊎ (t ≢ token)
Spares id token (complete j t) = (j ≢ id) ⊎ (t ≢ token)
Spares id token (fail j t message at) = (j ≢ id) ⊎ (t ≢ token)
Spares id token (retry j at) = j ≢ id
Spares id token (forget j) = j ≢ id
Spares id token other = Unit {0}

module _ (id token : String) (until : ℕ) (named : token ≢ "") (s : Store)
    (h : IsLeased id token until s) where
  held_ineligible : (now : ℕ) → now < until → eligible now h.holder ≡ false
  unfolding eligible
  held_ineligible now early =
      ground (arith, h.held, h.ends, h.alive, eq_iff h.holder.reservation_token "")

  pub reserve_spares :
      (now : ℕ) (r : FileStoredJob)
      → now < until
      → lookup r.job.id s.jobs ≡ some r
      → eligible now r ≡ true
      → r.job.id ≢ id
  reserve_spares now r early hit ready same =
      cc (held_ineligible now early, h.bound, subst (λ k. lookup k s.jobs ≡ some r) same hit)

  Permits-Spares : (c : Call) → IsOutsider id token until c → Permits (Spares id token) s c
  Permits-Spares (enqueues ctx job) o = tt
  Permits-Spares (reserves ctx none now lease) o = tt
  Permits-Spares (reserves ctx (some t) now lease) o =
      λ r hit ready. reserve_spares now r o hit ready
  Permits-Spares (releases ctx r at message) o = o
  Permits-Spares (completes ctx r) o = o
  Permits-Spares (fails ctx at r message) o = o
  Permits-Spares (retries ctx j at) o = λ r hit dead same.
      dead (ground (arith, subst (λ k. lookup k s.jobs ≡ some r) same hit, h.bound, h.alive))
  Permits-Spares (forgets ctx j) o = λ r hit dead same.
      dead (ground (arith, subst (λ k. lookup k s.jobs ≡ some r) same hit, h.bound, h.alive))
  Permits-Spares closes o = tt

  inserted :
      (j : String) (r : FileStoredJob) → j ≢ id → lookup id (insert j r s.jobs) ≡ some h.holder
  inserted j r ne = rw (lookup-insert j id r s.jobs) (ground (arith, h.bound, eq_iff j id))

  deleted : (j : String) → j ≢ id → lookup id (delete j s.jobs) ≡ some h.holder
  deleted j ne = rw (lookup-delete j id s.jobs) (ground (arith, h.bound, eq_iff j id))

  -- The token that an event about this job carries is the holder's.
  other_job :
      (j t : String) (r : FileStoredJob)
      → (j ≢ id) ⊎ (t ≢ token)
      → lookup j s.jobs ≡ some r
      → r.reservation_token ≡ t
      → j ≢ id
  other_job j t r (inl ne) hit same e = ne e
  other_job j t r (inr ne) hit same e =
      ne (ground (arith, h.bound, h.held, same, subst (λ k. lookup k s.jobs ≡ some r) e hit))

  Update-Spares :
      (json : Json Event) {e : Event} {jobs : Jobs}
      → Spares id token e
      → Update json s e jobs
      → lookup id jobs ≡ some h.holder
  Update-Spares json sp (admitted job valid room fresh) =
      inserted job.id _ (λ e. ground (arith, h.bound, subst (λ k. lookup k s.jobs ≡ none) e fresh))
  Update-Spares json sp (leased r t u hit valid timed) = inserted r.job.id _ sp
  Update-Spares json sp (returned j t message at r hit same n timed) =
      inserted j _ (other_job j t r sp hit same)
  Update-Spares json sp (completed j t r hit same n) = deleted j (other_job j t r sp hit same)
  Update-Spares json sp (buried j t message at r hit same n timed) =
      inserted j _ (other_job j t r sp hit same)
  Update-Spares json sp (revived j at r hit dead timed) = inserted j _ sp
  Update-Spares json sp (forgotten j r hit dead) = deleted j sp

  keep_lease : (t : Store) → lookup id t.jobs ≡ some h.holder → IsLeased id token until t
  keep_lease t e = record {
    holder = h.holder;
    bound = e;
    held = h.held;
    ends = h.ends;
    alive = h.alive;
  }

  commit-IsLeased :
      (json : Json Event) (w : Write) (e : Event) (jobs : Jobs)
      → lookup id jobs ≡ some h.holder
      → IsLeased id token until (commit json w e jobs s).1
  unfolding commit append
  commit-IsLeased json Write.unencodable e jobs f = keep_lease _ h.bound
  commit-IsLeased json Write.stopped_inside e jobs f = keep_lease _ h.bound
  commit-IsLeased json Write.stopped_before e jobs f = keep_lease _ h.bound
  commit-IsLeased json Write.unsynced e jobs f = keep_lease _ h.bound
  commit-IsLeased json Write.written e jobs f = keep_lease _ f

  Effect-IsLeased :
      (json : Json Event) (w : Write) {t : Store}
      → Effect (Spares id token) json s w t
      → IsLeased id token until t
  unfolding close
  Effect-IsLeased json w kept = h
  Effect-IsLeased json w shut = keep_lease _ h.bound
  Effect-IsLeased json w (changed sp u) = commit-IsLeased json w _ _ (Update-Spares json sp u)

module _ (id token : String) (until : ℕ) (named : token ≢ "") (json : Json Event) where
  step-IsLeased :
      (s : Store) (w : Write) (c : Call)
      → IsWellFormed s
      → IsSoundCall c
      → IsOutsider id token until c
      → IsLeased id token until s
      → IsLeased id token until (step json s w c)
  step-IsLeased s w c f v o h = Effect-IsLeased id token until named s h json w (
      step-Effect (Spares id token) json s w c f.sound v
        (Permits-Spares id token until named s h c o))

  -- A lease outlasts every history of outsiders.
  pub run-IsLeased :
      (s : Store) (cs : List (Write × Call))
      → IsWellFormed s
      → IsSoundHistory cs
      → All (λ c. IsOutsider id token until c.1) cs
      → IsLeased id token until s
      → IsLeased id token until (run json s cs)
  unfolding run
  run-IsLeased s [] f v o h = h
  run-IsLeased s ((w, c) ∷ cs) f v o h =
      run-IsLeased (step json s w c) cs (step-IsWellFormed json s w c f v.0) v.1 o.1
        (step-IsLeased s w c f v.0 o.0 h)
