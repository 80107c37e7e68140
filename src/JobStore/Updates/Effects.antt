-- ===== src/JobStore/Updates/Effects.antt =====
-- What an operation of backend/framework/file_job_store.go may do to the store, as one change of
-- one record or none.
use bridra.Common.{
  ℕ, ◌+◌, ◌<◌, ◌≡◌, ◌≢◌, refl, inl, inr, Bool, true, false, Option, none, some, String, length,
  Bool-cases, if◌then◌else◌,
}
use bridra.Common.Dict.{lookup, insert, delete}
use bridra.JobStore.Job.{
  Result, ok, err, Context, StoredJob, FileStoredJob, Json, fresh_record, valid_job_identifier,
  normalize_error, validate_stored_job,
}
use bridra.JobStore.Log.{
  Event, enqueue, reserve, release, complete, fail, retry, forget, Write, Jobs,
}
use bridra.JobStore.Operations.{
  Store, commit, eligible, ready, reserved, released, failed, retried, close, answer,
}
use bridra.JobStore.History.{
  Call, enqueues, reserves, releases, completes, fails, retries, forgets, closes,
}

-- The random source gives valid identifiers, and the clock is past the zero time.
abbrev pub IsSoundCall : Call → Type 0
IsSoundCall (reserves ctx (some token) now lease) = valid_job_identifier token ≡ true
IsSoundCall (fails ctx at r message) = at ≢ 0
IsSoundCall _ = Unit {0}

-- The events that a call on the store may write all satisfy P.
abbrev pub Permits : (Event → Type 0) → Store → Call → Type 0
Permits P s (enqueues ctx job) = P (enqueue (some job))
Permits P s (reserves ctx none now lease) = Unit {0}
Permits P s (reserves ctx (some token) now lease) =
    (r : FileStoredJob)
    → lookup r.job.id s.jobs ≡ some r
    → eligible now r ≡ true
    → P (reserve r.job.id token (now + lease) (r.job.attempts + 1))
Permits P s (releases ctx r at message) = P (release r.job.id r.token at (normalize_error message))
Permits P s (completes ctx r) = P (complete r.job.id r.token)
Permits P s (fails ctx at r message) = P (fail r.job.id r.token (normalize_error message) at)
Permits P s (retries ctx id at) =
    (r : FileStoredJob) → lookup id s.jobs ≡ some r → r.failed_at ≢ 0 → P (retry id at)
Permits P s (forgets ctx id) =
    (r : FileStoredJob) → lookup id s.jobs ≡ some r → r.failed_at ≢ 0 → P (forget id)
Permits P s closes = Unit {0}

module _ (json : Json Event) (s : Store) where
  -- The changes that the store promises: which event stands for each, when, and with what result.
  pub data Update : Event → Jobs → Type 0 where
    admitted :
        (job : StoredJob)
        → validate_stored_job json.valid s.max_payload_bytes job ≡ true
        → length s.jobs < s.max_jobs
        → lookup job.id s.jobs ≡ none
        → Update (enqueue (some job)) (insert job.id (fresh_record job) s.jobs)
    leased :
        (r : FileStoredJob) (token : String) (until : ℕ)
        → lookup r.job.id s.jobs ≡ some r
        → valid_job_identifier token ≡ true
        → until ≢ 0
        → Update
            (reserve r.job.id token until (r.job.attempts + 1))
            (insert r.job.id (reserved token until r) s.jobs)
    returned :
        (id token message : String) (at : ℕ) (r : FileStoredJob)
        → lookup id s.jobs ≡ some r
        → r.reservation_token ≡ token
        → token ≢ ""
        → at ≢ 0
        → Update
            (release id token at (normalize_error message))
            (insert id (released at (normalize_error message) r) s.jobs)
    completed :
        (id token : String) (r : FileStoredJob)
        → lookup id s.jobs ≡ some r
        → r.reservation_token ≡ token
        → token ≢ ""
        → Update (complete id token) (delete id s.jobs)
    buried :
        (id token message : String) (at : ℕ) (r : FileStoredJob)
        → lookup id s.jobs ≡ some r
        → r.reservation_token ≡ token
        → token ≢ ""
        → at ≢ 0
        → Update
            (fail id token (normalize_error message) at)
            (insert id (failed at (normalize_error message) r) s.jobs)
    revived :
        (id : String) (at : ℕ) (r : FileStoredJob)
        → lookup id s.jobs ≡ some r
        → r.failed_at ≢ 0
        → at ≢ 0
        → Update (retry id at) (insert id (retried at r) s.jobs)
    forgotten :
        (id : String) (r : FileStoredJob)
        → lookup id s.jobs ≡ some r
        → r.failed_at ≢ 0
        → Update (forget id) (delete id s.jobs)

module _ (P : Event → Type 0) (json : Json Event) (s : Store) where
  -- What a call leaves: the store as it was, or closed, or one promised change that is committed.
  pub data Effect (w : Write) : Store → Type 0 where
    kept : Effect w s
    shut : Effect w (close s)
    changed :
        {e : Event} {jobs : Jobs} → P e → Update json s e jobs → Effect w (commit json w e jobs s).1

  -- An operation that leaves such a store, whatever it returns.
  pub record Leaves {A : Type 0} (w : Write) (outcome : Result A × Store) : Type 0 where
    pub effect : Effect w outcome.1

module _ {P : Event → Type 0} {json : Json Event} {s : Store} {w : Write} {A : Type 0} where
  pub keeps : (r : Result A) → Leaves P json s w (r, s)
  keeps r = record { effect = kept }

  pub if-Leaves :
      (b : Bool) {x y : Result A × Store}
      → (b ≡ true → Leaves P json s w x)
      → (b ≡ false → Leaves P json s w y)
      → Leaves P json s w (if b then x else y)
  if-Leaves true f g = f refl
  if-Leaves false f g = g refl

  pub found-Leaves :
      {V : Type 0} (o : Option V) {x : Result A × Store} {f : V → Result A × Store}
      → (o ≡ none → Leaves P json s w x)
      → ((v : V) → o ≡ some v → Leaves P json s w (f v))
      → Leaves P json s {A = A} w (elim o [ none ↦ x | some v ↦ f v ])
  found-Leaves none g h = g refl
  found-Leaves (some v) g h = h v refl

  pub ready-Leaves :
      {k : Result A × Store}
      → Leaves P json s w k
      → Leaves P json s {A = A} w (elim (ready Context.live s) [ err e ↦ (err e, s) | ok u ↦ k ])
  unfolding ready
  ready-Leaves h = elim (Bool-cases s.closed) [ inl e ↦ simp e (keeps _) | inr e ↦ simp e h ]

pub answer-Leaves :
    {P : Event → Type 0} {json : Json Event} {s : Store} {w : Write} (r : FileStoredJob)
    (o : Result (Unit {0}) × Store)
    → Leaves P json s w o
    → Leaves P json s w (answer json r o)
answer-Leaves r (ok u, t) h = record { effect = h.effect }
answer-Leaves r (err e, t) h = record { effect = h.effect }
