-- ===== src/JobQueue/Retrying.antt =====
-- The attempts at a job, the waits between them and the report, backend/framework/jobs.go.
use bridra.Common.{
  ℤ, subst, if◌then◌else◌, ℕ, zero, suc, ◌+◌, ◌≤◌, ◌<◌, ◌≡◌, refl, sym, ap, ◌∙◌, ◌⊎◌, inl, inr,
  false, Option, none, some, List, [], ◌∷◌, ◌++◌, ltb, lt→ltb, ok, past, ok-injective, arith,
  Option-cases, ◌==◌,
}
use mathlib.Core.List.{append_assoc}
use bridra.JobQueue.Executing.{
  JobHandlerOptions, normalize_job_handler_options, to_nat, Outcome, execute_attempt, AttemptError,
  JobFailure, Action, tries, reports, wait_for_job_retry, failure_of, after_attempt, retry,
  execute_job,
}

same-ltb : (a b : ℕ) → a ≡ b → ltb a b ≡ false
same-ltb a b h = ground arith

module _ (handle : ℕ → Outcome) (options : JobHandlerOptions ℕ) where
  -- Attempts that failed, each with its wait.
  unfoldable pub failed_attempts : ℕ → ℕ → List Action
  failed_attempts attempt zero = []
  failed_attempts attempt (suc count) =
      tries attempt ∷ wait_for_job_retry options.retry_backoff
      ++ failed_attempts (attempt + 1) count

  -- All of `count` attempts fail.
  abbrev pub Fails : ℕ → ℕ → Type 0
  Fails attempt count =
      (n : ℕ) → n < count → (e : AttemptError) × (execute_attempt (handle (attempt + n)) ≡ some e)

  -- The failure that is reported after a last attempt: the number of that attempt, and its error.
  abbrev pub last_failure : ℕ → JobFailure
  last_failure attempt = record {
    attempts = attempt;
    max_attempts = options.max_attempts;
    exhausted = ltb 1 options.max_attempts;
    cause = execute_attempt (handle attempt);
  }

  -- The end of a loop with `left` attempts: the first that succeeds, or a last one that fails and is
  -- reported.
  abbrev pub Ends : ℕ → ℕ → List Action → Type 0
  Ends attempt left actions =
      ((n : ℕ) × (n < left)
        × Fails attempt n
        × (execute_attempt (handle (attempt + n)) ≡ none)
        × (actions ≡ failed_attempts attempt n ++ tries (attempt + n) ∷ []))
      ⊎ ((n : ℕ) × (left ≡ n + 1)
          × Fails attempt left
          × (actions
              ≡ failed_attempts attempt n
                ++ tries (attempt + n) ∷ reports (last_failure (attempt + n)) ∷ []))

  Fails-at_first :
      (attempt : ℕ) (e : AttemptError) → execute_attempt (handle attempt) ≡ some e → Fails attempt 1
  Fails-at_first attempt e h n lt =
      (e, ap (λ k. execute_attempt (handle k)) (omega (arith, lt)) ∙ h)

  Fails-suc :
      (attempt count : ℕ) (e : AttemptError)
      → execute_attempt (handle attempt) ≡ some e
      → Fails (attempt + 1) count
      → Fails attempt (suc count)
  Fails-suc attempt count e h fails zero lt =
      (e, ap (λ k. execute_attempt (handle k)) (omega arith) ∙ h)
  Fails-suc attempt count e h fails (suc n) lt =
      let (e2, h2) = fails n (omega (arith, lt)) in
      (e2, ap (λ k. execute_attempt (handle k)) (omega arith) ∙ h2)

  -- What the last attempts do after those that failed.
  abbrev pub last_of : (ℕ → List Action) → ℕ → ℕ → List Action
  last_of last attempt n = failed_attempts attempt n ++ last (attempt + n)

  last_of-suc :
      (last : ℕ → List Action) (attempt n : ℕ)
      → tries attempt ∷ wait_for_job_retry options.retry_backoff ++ last_of last (attempt + 1) n
        ≡ last_of last attempt (suc n)
  unfolding failed_attempts
  last_of-suc last attempt n =
      ap
        (λ k.
          tries attempt ∷ wait_for_job_retry options.retry_backoff
          ++ (failed_attempts (attempt + 1) n ++ last k))
        (omega arith)
      ∙ ap (λ actions. tries attempt ∷ actions)
          (sym (
            append_assoc (wait_for_job_retry options.retry_backoff)
              (failed_attempts (attempt + 1) n) (last (attempt + suc n))))

  retried :
      (l attempt : ℕ) (e : AttemptError)
      → attempt + suc l ≡ options.max_attempts
      → (rest : List Action)
      → after_attempt handle options (some e) attempt rest
        ≡ wait_for_job_retry options.retry_backoff ++ rest
  unfolding after_attempt
  retried l attempt e h rest = rw (lt→ltb attempt options.max_attempts (omega (arith, h)))

  retry-none :
      (l attempt : ℕ) (error : Option AttemptError)
      → execute_attempt (handle attempt) ≡ none
      → retry handle options (suc l) attempt error ≡ tries attempt ∷ []
  unfolding retry after_attempt
  retry-none l attempt error h = rw h

  retry-some :
      (l attempt : ℕ) (error : Option AttemptError) (e : AttemptError)
      → execute_attempt (handle attempt) ≡ some e
      → retry handle options (suc l) attempt error
        ≡ tries attempt
          ∷ after_attempt handle options
              (some e)
              attempt
              (retry handle options l (attempt + 1) (some e))
  unfolding retry
  retry-some l attempt error e h = rw h

  succeeds_at_first :
      (l attempt : ℕ) (error : Option AttemptError)
      → execute_attempt (handle attempt) ≡ none
      → Ends attempt (suc l) (retry handle options (suc l) attempt error)
  unfolding failed_attempts
  succeeds_at_first l attempt error h =
      let same : attempt + 0 ≡ attempt = omega arith in
      inl (
        0,
        omega arith,
        λ n lt. absurd (omega (arith, lt)),
        ap (λ k. execute_attempt (handle k)) same ∙ h,
        retry-none l attempt error h ∙ ap (λ k. tries k ∷ []) (sym same),
      )

  reported :
      (attempt : ℕ) (e : AttemptError)
      → attempt ≡ options.max_attempts
      → execute_attempt (handle attempt) ≡ some e
      → after_attempt handle options
          (some e)
          attempt
          (retry handle options 0 (attempt + 1) (some e))
        ≡ reports (last_failure attempt) ∷ []
  unfolding retry after_attempt failure_of
  reported attempt e at_last h =
      rw (h, same-ltb attempt options.max_attempts at_last)
        (ap
          (λ k.
            reports (record {
              attempts = k;
              max_attempts = options.max_attempts;
              exhausted = ltb 1 options.max_attempts;
              cause = some e;
            })
            ∷ [])
          (sym at_last))

  exhausts :
      (attempt : ℕ) (error : Option AttemptError) (e : AttemptError)
      → attempt ≡ options.max_attempts
      → execute_attempt (handle attempt) ≡ some e
      → Ends attempt 1 (retry handle options 1 attempt error)
  unfolding failed_attempts
  exhausts attempt error e at_last h =
      let same : attempt + 0 ≡ attempt = omega arith in
      inr (
        0,
        omega arith,
        Fails-at_first attempt e h,
        retry-some 0 attempt error e h
            ∙ ap (λ actions. tries attempt ∷ actions) (reported attempt e at_last h)
            ∙ ap (λ k. tries k ∷ reports (last_failure k) ∷ []) (sym same),
      )

  continued :
      (l attempt : ℕ) (error : Option AttemptError) (e : AttemptError)
      → attempt + suc l ≡ options.max_attempts
      → execute_attempt (handle attempt) ≡ some e
      → (last : ℕ → List Action) (n : ℕ)
      → retry handle options (suc l) (attempt + 1) (some e) ≡ last_of last (attempt + 1) n
      → retry handle options (suc (suc l)) attempt error ≡ last_of last attempt (suc n)
  continued l attempt error e at h last n actions =
      retry-some (suc l) attempt error e h
      ∙ ap (λ k. tries attempt ∷ k)
          (retried l attempt e at (retry handle options (suc l) (attempt + 1) (some e))
            ∙ ap (λ k. wait_for_job_retry options.retry_backoff ++ k) actions)
      ∙ last_of-suc last attempt n

  retries :
      (l attempt : ℕ) (error : Option AttemptError) (e : AttemptError)
      → attempt + suc l ≡ options.max_attempts
      → execute_attempt (handle attempt) ≡ some e
      → Ends (attempt + 1) (suc l) (retry handle options (suc l) (attempt + 1) (some e))
      → Ends attempt (suc (suc l)) (retry handle options (suc (suc l)) attempt error)
  retries l attempt error e at h (inl (n, lt, fails, done, actions)) = inl (
    suc n,
    omega (arith, lt),
    Fails-suc attempt n e h fails,
    ap (λ k. execute_attempt (handle k)) (omega arith) ∙ done,
    continued l attempt error e at h (λ k. tries k ∷ []) n actions,
  )
  retries l attempt error e at h (inr (n, same, fails, actions)) = inr (
    suc n,
    omega (arith, same),
    Fails-suc attempt (suc l) e h fails,
    continued l attempt error e at h (λ k. tries k ∷ reports (last_failure k) ∷ []) n actions,
  )

  retry-Ends :
      (l attempt : ℕ) (error : Option AttemptError)
      → attempt + l ≡ options.max_attempts
      → Ends attempt (suc l) (retry handle options (suc l) attempt error)
  retry-Ends zero attempt error at = elim (Option-cases (execute_attempt (handle attempt))) [
    | inl h ↦ succeeds_at_first zero attempt error h
    | inr (e, h) ↦ exhausts attempt error e (omega (arith, at)) h
  ]
  retry-Ends (suc l) attempt error at = elim (Option-cases (execute_attempt (handle attempt))) [
    | inl h ↦ succeeds_at_first (suc l) attempt error h
    | inr (e, h) ↦
        retries l attempt error e at h (retry-Ends l (attempt + 1) (some e) (omega (arith, at)))
  ]

at_least_one : (n : ℕ) → 1 ≤ (if n == 0 then 1 else n)
at_least_one n = ground arith

pub normalize-positive :
    (options : JobHandlerOptions ℤ) (normalized : JobHandlerOptions ℕ)
    → normalize_job_handler_options options ≡ ok normalized
    → 1 ≤ normalized.max_attempts
unfolding normalize_job_handler_options
normalize-positive options normalized h =
    let passed = past _ _ _ normalized h in
    subst (λ n. 1 ≤ n) (ap (λ o. o.max_attempts) (ok-injective _ _ passed.1))
      (at_least_one (to_nat options.max_attempts))

Ends-from_one :
    (handle : ℕ → Outcome) (options : JobHandlerOptions ℕ) (max : ℕ)
    → 1 ≤ max
    → max ≡ options.max_attempts
    → Ends handle options 1 max (retry handle options max 1 none)
Ends-from_one handle options zero positive same = absurd (omega (arith, positive))
Ends-from_one handle options (suc l) positive same =
    retry-Ends handle options l 1 none (omega (arith, same))

-- Where the options of a handler are accepted, executing a job does one of two things. Either some
-- attempts fail, each followed by the wait for a positive backoff, the next one succeeds, and nothing
-- is reported; or as many attempts as the options allow, at least one, fail, with that wait between
-- them, and one failure is reported, with the number of attempts made and the last attempt's error.
pub execute_job-Ends :
    (handle : ℕ → Outcome) (options : JobHandlerOptions ℤ) (normalized : JobHandlerOptions ℕ)
    → normalize_job_handler_options options ≡ ok normalized
    → Ends handle normalized 1 normalized.max_attempts (execute_job handle normalized)
unfolding execute_job
execute_job-Ends handle options normalized h =
    Ends-from_one handle normalized normalized.max_attempts
      (normalize-positive options normalized h) refl
