-- ===== src/JobQueue/Executing.antt =====
-- The execution of a job with its attempts, backend/framework/jobs.go: normalizeJobHandlerOptions,
-- execute, executeAttempt, waitForJobRetry and the failure that is reported.
use bridra.Common.{
  ℕ, zero, suc, ◌+◌, Bool, true, false, ◌||◌, Option, none, some, List, [], ◌∷◌, ◌++◌, ltb, ◌==◌,
  if◌then◌else◌, Result, ok, err, ℤ, pos, negsuc,
}

-- JobHandlerOptions, as registered and as normalized
pub record JobHandlerOptions (N : Type 0) : Type 0 where
  pub max_attempts : N
  pub retry_backoff : N

pub data OptionsError : Type 0 where
  invalid_job_handler_options : OptionsError

abbrev pub is_negative : ℤ → Bool
is_negative (pos n) = false
is_negative (negsuc n) = true

abbrev pub to_nat : ℤ → ℕ
to_nat (pos n) = n
to_nat (negsuc n) = 0

-- normalizeJobHandlerOptions
unfoldable pub normalize_job_handler_options :
    JobHandlerOptions ℤ → Result OptionsError (JobHandlerOptions ℕ)
normalize_job_handler_options options =
    if is_negative options.max_attempts || is_negative options.retry_backoff
    then err invalid_job_handler_options
    else ok record {
      max_attempts = if to_nat options.max_attempts == 0 then 1 else to_nat options.max_attempts;
      retry_backoff = to_nat options.retry_backoff;
    }

-- What a call of the handler does; the numbers stand for the errors.
pub data Outcome : Type 0 where
  returns : Option ℕ → Outcome
  panics : ℕ → Outcome

pub data AttemptError : Type 0 where
  handler_error handler_panic : ℕ → AttemptError

-- executeAttempt
unfoldable pub execute_attempt : Outcome → Option AttemptError
execute_attempt (returns none) = none
execute_attempt (returns (some e)) = some (handler_error e)
execute_attempt (panics e) = some (handler_panic e)

-- JobFailure; `exhausted` says whether its error wraps ErrJobRetriesExhausted, and `cause` is the
-- last attempt's error.
pub record JobFailure : Type 0 where
  pub attempts : ℕ
  pub max_attempts : ℕ
  pub exhausted : Bool
  pub cause : Option AttemptError

-- What execute does, in order.
pub data Action : Type 0 where
  tries waits : ℕ → Action
  reports : JobFailure → Action

-- waitForJobRetry
unfoldable pub wait_for_job_retry : ℕ → List Action
wait_for_job_retry backoff = if backoff == 0 then [] else waits backoff ∷ []

-- The end of execute after the loop
unfoldable pub failure_of : JobHandlerOptions ℕ → Option AttemptError → JobFailure
failure_of options error = record {
  attempts = options.max_attempts;
  max_attempts = options.max_attempts;
  exhausted = ltb 1 options.max_attempts;
  cause = error;
}

module _ (handle : ℕ → Outcome) (options : JobHandlerOptions ℕ) where
  -- What follows an attempt: the return, or the wait and the loop's rest.
  unfoldable pub after_attempt : Option AttemptError → ℕ → List Action → List Action
  after_attempt none attempt rest = []
  after_attempt (some e) attempt rest =
      if ltb attempt options.max_attempts
      then wait_for_job_retry options.retry_backoff ++ rest
      else rest

  -- The loop of execute, with the attempts that are left and the error so far
  unfoldable pub retry : ℕ → ℕ → Option AttemptError → List Action
  retry zero attempt error = reports (failure_of options error) ∷ []
  retry (suc left) attempt error =
      let e = execute_attempt (handle attempt) in
      let rest = retry left (attempt + 1) e in tries attempt ∷ after_attempt e attempt rest

  -- execute
  unfoldable pub execute_job : List Action
  execute_job = retry options.max_attempts 1 none
