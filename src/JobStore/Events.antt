-- ===== src/JobStore/Events.antt =====
-- The events that backend/framework/file_job_store.go writes: each replays to the change that it
-- stands for, and its line is within the bound that the replay checks.
use mathlib.Core.Path.{subst}
use bridra.Common.{
  ℕ, ◌+◌, ◌≤◌, ◌≡◌, ◌≢◌, sym, ◌∙◌, inl, inr, true, none, some, String, arith, length, eq_iff,
}
use bridra.Common.Dict.{lookup}
use bridra.Common.Entries.{lookup-Entries}
use bridra.JobStore.Job.{
  ok, StoredJob, FileStoredJob, Json, valid_job_identifier, byte_length, validate_stored_job,
  max_handler_bytes, max_error_bytes,
}
use bridra.JobStore.Log.{
  Event, enqueue, reserve, release, complete, fail, retry, forget, other, Jobs, compact, read_back,
  apply_kind, event_overhead,
}
use bridra.JobStore.Operations.{Store}
use bridra.JobStore.ErrorText.{normalize_error-le}
use bridra.JobStore.Selection.{IsSoundRecord}
use bridra.JobStore.History.{Call, enqueues, reserves, retries, forgets}
use bridra.JobStore.Updates.{
  Update, admitted, leased, returned, completed, buried, revived, forgotten, Permits,
}
use bridra.JobStore.Invariant.{IsWellFormed}

-- A payload that json.Marshal would write as it is, such as one that json.Marshal returned.
abbrev pub IsCanonical : Event → Type 0
IsCanonical (enqueue (some job)) = compact job.payload ≡ job.payload
IsCanonical _ = Unit {0}

abbrev pub IsCanonicalCall : Call → Type 0
IsCanonicalCall (enqueues ctx job) = compact job.payload ≡ job.payload
IsCanonicalCall _ = Unit {0}

pub Permits-IsCanonical : (s : Store) (c : Call) → IsCanonicalCall c → Permits IsCanonical s c
Permits-IsCanonical s (enqueues ctx job) p = p
Permits-IsCanonical s (reserves ctx none now lease) p = tt
Permits-IsCanonical s (reserves ctx (some token) now lease) p = λ _ _ _. tt
Permits-IsCanonical s (retries ctx id at) p = λ _ _ _. tt
Permits-IsCanonical s (forgets ctx id) p = λ _ _ _. tt
Permits-IsCanonical s _ p = tt

abbrev pub IsId : String → Type 0
IsId s = valid_job_identifier s ≡ true

-- What the store's checks bound in an event that it writes.
abbrev pub IsWritable : ℕ → Event → Type 0
IsWritable n (enqueue none) = ⊥
IsWritable n (enqueue (some job)) =
    IsId job.id × (byte_length job.handler ≤ max_handler_bytes) × (length (compact job.payload) ≤ n)
IsWritable n (reserve id token until attempts) = IsId id × IsId token
IsWritable n (release id token at message) =
    IsId id × IsId token × (byte_length message ≤ max_error_bytes)
IsWritable n (complete id token) = IsId id × IsId token
IsWritable n (fail id token message at) =
    IsId id × IsId token × (byte_length message ≤ max_error_bytes)
IsWritable n (retry id at) = IsId id
IsWritable n (forget id) = IsId id
IsWritable n other = ⊥

-- json.Marshal adds less than event_overhead to the payload of such an event.
abbrev pub Fits : Json Event → ℕ → Type 0
Fits json n = (e : Event) → IsWritable n e → json.line_bytes e ≤ n + event_overhead

pub IsId-ne-empty : (token : String) → IsId token → token ≢ ""
unfolding valid_job_identifier
IsId-ne-empty token v e = cc (subst IsId e v)

valid_job-bounds :
    (json : Json Event) (n : ℕ) (job : StoredJob)
    → validate_stored_job json.valid n job ≡ true
    → IsId job.id × (byte_length job.handler ≤ max_handler_bytes) × (length job.payload ≤ n)
unfolding validate_stored_job
valid_job-bounds json n job h = ground arith

module _ (json : Json Event) (s : Store) where
  key_of : (id : String) (r : FileStoredJob) → IsWellFormed s → lookup id s.jobs ≡ some r → IsId id
  key_of id r h hit = (lookup-Entries IsSoundRecord id r s.jobs h.sound.1 hit).valid_key

  token_of :
      (id : String) (r : FileStoredJob)
      → IsWellFormed s
      → lookup id s.jobs ≡ some r
      → (token : String) → r.reservation_token ≡ token
      → token ≢ ""
      → IsId token
  token_of id r h hit token same named =
      elim ((lookup-Entries IsSoundRecord id r s.jobs h.sound.1 hit).valid_token) [
        | inl empty ↦ absurd (named (sym same ∙ empty))
        | inr valid ↦ subst IsId same valid
      ]

  pub Update-apply :
      {e : Event} {jobs : Jobs}
      → IsCanonical e
      → Update json s e jobs
      → apply_kind json.valid s.max_payload_bytes s.jobs (read_back e) ≡ ok jobs
  unfolding apply_kind read_back
  Update-apply p (admitted job valid room fresh) = rw p (ground arith)
  Update-apply p (leased r token until hit valid timed) =
      rw (hit, apply_kind) (ground (arith, eq_iff token "", IsId-ne-empty token valid))
  Update-apply p (returned id token message at r hit same named timed) =
      ground (arith, eq_iff token "", eq_iff r.reservation_token token)
  Update-apply p (completed id token r hit same named) =
      ground (arith, eq_iff token "", eq_iff r.reservation_token token)
  Update-apply p (buried id token message at r hit same named timed) =
      ground (arith, eq_iff token "", eq_iff r.reservation_token token)
  Update-apply p (revived id at r hit dead timed) = ground arith
  Update-apply p (forgotten id r hit dead) = ground arith

  pub Update-IsWritable :
      {e : Event} {jobs : Jobs}
      → IsWellFormed s
      → IsCanonical e
      → Update json s e jobs
      → IsWritable s.max_payload_bytes e
  Update-IsWritable h p (admitted job valid room fresh) =
      rw p (valid_job-bounds json s.max_payload_bytes job valid)
  Update-IsWritable h p (leased r token until hit valid timed) = (key_of r.job.id r h hit, valid)
  Update-IsWritable h p (returned id token message at r hit same named timed) =
      (key_of id r h hit, token_of id r h hit token same named, normalize_error-le message)
  Update-IsWritable h p (completed id token r hit same named) =
      (key_of id r h hit, token_of id r h hit token same named)
  Update-IsWritable h p (buried id token message at r hit same named timed) =
      (key_of id r h hit, token_of id r h hit token same named, normalize_error-le message)
  Update-IsWritable h p (revived id at r hit dead timed) = key_of id r h hit
  Update-IsWritable h p (forgotten id r hit dead) = key_of id r h hit
