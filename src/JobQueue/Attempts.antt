-- ===== src/JobQueue/Attempts.antt =====
-- Each attempt at a job is made at most once, backend/framework/jobs_persistent.go.
use bridra.Common.{
  ℕ, zero, suc, ◌+◌, ◌≤◌, ◌≡◌, refl, sym, ap, ◌∙◌, Bool, true, false, ◌⊎◌, Option, none, some, List,
  [], ◌∷◌, ◌++◌, String, ◌=s=◌, if◌then◌else◌, arith, if_cases, All,
}
use bridra.Common.Sums.{sum}
use bridra.Common.Dict.{Dict}
use bridra.JobStore.Job.{Result, ok, err, JobReservation}
use bridra.JobQueue.Handlers.{HandlerEntry}
use bridra.JobQueue.Persistent.{JobStore, Failure, Ran}
use bridra.JobQueue.Workers.{
  Wait, context_ends, receives_wake, timer_fires, Worker, at_top, waiting, worker_returned, holding,
  Inputs, Execution, PersistentQueue, Turn, idle_workers, start_persistent, after_reserve,
  after_execute, calls_of, wait_for_persistent_work, turn, turn_at, after_enqueue, persist_job,
  PersistentEvent, persists, works, persistent_step, persistent_run,
}
use bridra.JobQueue.StoreLaws.{IsJobStore, Counts}
use bridra.JobQueue.Executed.{Executes, execute_persistent-Executes}
use bridra.JobQueue.Uses.{
  dispatches_of, IsSoundEvent, use_of, held, done, room, aged, counted, added, room_later,
}

module _ (id : String) (a : ℕ) {S I : Type 0} (store : JobStore S I) (laws : IsJobStore store)
    (text : Failure → String) where
  -- On a good store, the uses of the attempt, with those that are held elsewhere, have room.
  pub record Fits (k extra : ℕ) (q : PersistentQueue S) : Type 0 where
    good : laws.IsGood q.store
    pub fits : extra + sum (done id a) q.executed ≤ room id a (laws.attempts id q.store) k
    fresh : k ≡ 0 → laws.attempts id q.store ≡ none

  abbrev FitsAfter : ℕ → ℕ → Turn S → Type 0
  FitsAfter k extra t = Fits k (held id a t.worker + extra) t.queue

  same-Fits : {k m n : ℕ} {q : PersistentQueue S} → Fits k m q → m ≡ n → Fits k n q
  same-Fits f e = record { good = f.good; fits = omega (arith, f.fits, e); fresh = f.fresh }

  calls-done :
      (called : Bool) (r : JobReservation) (executed : List Execution)
      → sum (done id a) (calls_of called r ++ executed)
        ≤ use_of id a r.job.id r.job.attempts + sum (done id a) executed
  unfolding sum
  calls-done true r executed = omega arith
  calls-done false r executed = omega arith

  reserve-Fits :
      (k extra : ℕ) (q : PersistentQueue S) (o : Result JobReservation × S)
      → laws.IsGood o.1
      → Counts laws.attempts id q.store o
      → Fits k extra q
      → FitsAfter k extra (after_reserve q o)
  unfolding held
  reserve-Fits k extra q (err e, t) good counts f = record {
    good = good;
    fits = rw counts (omega (arith, f.fits));
    fresh = λ z. counts ∙ f.fresh z;
  }
  reserve-Fits k extra q (ok r, t) good counts f =
      let (fits, fresh) =
        counted id a r.job.id r.job.attempts (laws.attempts id q.store) (laws.attempts id t) k
          (extra + sum (done id a) q.executed) counts f.fresh f.fits in
      record { good = good; fits = omega (arith, fits); fresh = fresh }

  execute-Fits :
      (k extra : ℕ) (q : PersistentQueue S) (r : JobReservation) (ran : Ran S)
      → Executes store laws r q.store q.handlers_by_name ran
      → Fits k (use_of id a r.job.id r.job.attempts + extra) q
      → Fits k extra (after_execute q r ran).queue
  unfolding held sum
  execute-Fits k extra q r ran e f =
      let (fits, fresh) =
        aged id a (laws.attempts id q.store) (laws.attempts id ran.store) k
          (use_of id a r.job.id r.job.attempts + extra + sum (done id a) q.executed) (e.ages id)
          f.fresh f.fits in
      record {
        good = e.good;
        fits = omega (arith, fits, calls-done ran.called r q.executed);
        fresh = fresh;
      }

  wait-Fits :
      (k extra : ℕ) (q : PersistentQueue S) (cancelled : Bool) (wait : Wait)
      → Fits k (0 + extra) q
      → FitsAfter k extra (wait_for_persistent_work q cancelled wait)
  unfolding held wait_for_persistent_work
  wait-Fits k extra q cancelled context_ends f =
      if_cases (FitsAfter k extra) cancelled (λ _. f) (λ _. f)
  wait-Fits k extra q cancelled receives_wake f =
      if_cases (FitsAfter k extra) q.wake
        (λ _. record { good = f.good; fits = f.fits; fresh = f.fresh }) (λ _. f)
  wait-Fits k extra q cancelled timer_fires f = f

  turn-Fits :
      (k extra : ℕ) (i : Inputs I) (q : PersistentQueue S) (w : Worker)
      → laws.IsSound i.input
      → Fits k (held id a w + extra) q
      → FitsAfter k extra (turn store text i q w)
  unfolding held turn
  turn-Fits k extra i q at_top sound f =
      if_cases (FitsAfter k extra) i.cancelled (λ _. f)
        λ _.
          reserve-Fits k extra q (store.reserve i.input i.now q.lease_duration q.store)
            (laws.reserve-IsGood i.input i.now q.lease_duration q.store f.good sound)
            (laws.reserve-Counts i.input i.now q.lease_duration q.store id f.good sound)
            (same-Fits f (omega arith))
  turn-Fits k extra i q (holding r) sound f =
      same-Fits
        (execute-Fits k extra q r _
          (execute_persistent-Executes store laws text i.input i.now r q.store q.handlers_by_name
            f.good sound i.outcome)
          f)
        (omega arith)
  turn-Fits k extra i q waiting sound f = wait-Fits k extra q i.cancelled i.wait f
  turn-Fits k extra i q worker_returned sound f = f

  -- The workers of a queue hold what is left of the uses.
  turn_at-Fits :
      (k extra n : ℕ) (i : Inputs I) (q : PersistentQueue S) (ws : List Worker)
      → laws.IsSound i.input
      → Fits k (sum (held id a) ws + extra) q
      → Fits k
          (sum (held id a) (turn_at store text n i q ws).1 + extra)
          (turn_at store text n i q ws).0
  unfolding turn_at sum
  turn_at-Fits k extra n i q [] sound f = f
  turn_at-Fits k extra zero i q (w ∷ ws) sound f =
      same-Fits (turn-Fits k (sum (held id a) ws + extra) i q w sound (same-Fits f (omega arith)))
        (omega arith)
  turn_at-Fits k extra (suc n) i q (w ∷ ws) sound f =
      same-Fits (turn_at-Fits k (held id a w + extra) n i q ws sound (same-Fits f (omega arith)))
        (omega arith)

  abbrev pub FitsQueue : ℕ → PersistentQueue S → Type 0
  FitsQueue k q = Fits k (sum (held id a) q.workers) q

  later-Fits : {k l n : ℕ} {q : PersistentQueue S} → Fits k n q → k ≤ l → Fits l n q
  unfolding room
  later-Fits {k} {l} {n} {q} f le = record {
    good = f.good;
    fits = room_later id a (laws.attempts id q.store) k l _ le f.fits;
    fresh = λ z. f.fresh (omega (arith, z, le));
  }

  enqueue-Fits :
      (k extra : ℕ) (j : String) (q : PersistentQueue S) (o : Result (Unit {0}) × S)
      → laws.IsGood o.1
      → (laws.attempts id o.1 ≡ laws.attempts id q.store)
        ⊎ ((id ≡ j) × (laws.attempts id q.store ≡ none) × (laws.attempts id o.1 ≡ some 0))
      → k + (if j =s= id then 1 else 0) ≤ 1
      → Fits k extra q
      → Fits (k + (if j =s= id then 1 else 0)) extra (after_enqueue q o)
  enqueue-Fits k extra j q (ok u, t) good adds once f =
      let (fits, fresh) =
        added id a j (laws.attempts id q.store) (laws.attempts id t) k
          (extra + sum (done id a) q.executed) adds f.fresh f.fits once in
      record { good = good; fits = fits; fresh = fresh }
  enqueue-Fits k extra j q (err e, t) good adds once f =
      let (fits, fresh) =
        added id a j (laws.attempts id q.store) (laws.attempts id t) k
          (extra + sum (done id a) q.executed) adds f.fresh f.fits once in
      record { good = good; fits = fits; fresh = fresh }

  same_workers :
      (q : PersistentQueue S) (o : Result (Unit {0}) × S) → (after_enqueue q o).workers ≡ q.workers
  same_workers q (ok u, t) = refl
  same_workers q (err e, t) = refl

  step-Fits :
      (k : ℕ) (e : PersistentEvent I) (q : PersistentQueue S)
      → IsSoundEvent laws.IsSound e
      → k + dispatches_of id e ≤ 1
      → FitsQueue k q
      → FitsQueue (k + dispatches_of id e) (persistent_step store text e q)
  unfolding persistent_step persist_job dispatches_of
  step-Fits k (persists i (some j) (some payload) handler at enqueued_at) q sound once f =
      same-Fits
        (enqueue-Fits k (sum (held id a) q.workers) j q _
          (laws.enqueue-IsGood i _ q.store f.good sound)
          (laws.enqueue-Adds i _ q.store id f.good sound) once f)
        (ap (sum (held id a)) (sym (same_workers q _)))
  step-Fits k (persists i (some j) none handler at enqueued_at) q sound once f =
      later-Fits f (omega arith)
  step-Fits k (persists i none payload handler at enqueued_at) q sound once f =
      later-Fits f (omega arith)
  step-Fits k (works n i) q sound once f =
      let turned = turn_at-Fits k 0 n i q q.workers sound (same-Fits f (omega arith)) in
      later-Fits
        (same-Fits (record { good = turned.good; fits = turned.fits; fresh = turned.fresh })
          (omega arith))
        (omega arith)

  pub run-Fits :
      (k : ℕ) (es : List (PersistentEvent I)) (q : PersistentQueue S)
      → All (IsSoundEvent laws.IsSound) es
      → k + sum (dispatches_of id) es ≤ 1
      → FitsQueue k q
      → FitsQueue (k + sum (dispatches_of id) es) (persistent_run store text es q)
  unfolding persistent_run sum
  run-Fits k [] q sound once f = later-Fits f (omega arith)
  run-Fits k (e ∷ es) q (sound, others) once f =
      later-Fits
        (run-Fits (k + dispatches_of id e) es (persistent_step store text e q) others
          (omega (arith, once)) (step-Fits k e q sound (omega (arith, once)) f))
        (omega arith)

  none_held : (n : ℕ) → sum (held id a) (idle_workers n) ≡ 0
  unfolding sum held
  none_held zero = refl
  none_held (suc n) = omega (arith, none_held n)

  start-Fits :
      (s : S) (handlers : Dict HandlerEntry) (lease n : ℕ)
      → laws.IsGood s
      → laws.attempts id s ≡ none
      → FitsQueue 0 (start_persistent s handlers lease n)
  unfolding start_persistent sum room
  start-Fits s handlers lease n good fresh = record {
    good = good;
    fits = omega (arith, none_held n);
    fresh = λ _. fresh;
  }

  at_most_one : (o : Option ℕ) (k uses : ℕ) → uses ≤ room id a o k → uses ≤ 1
  unfolding room
  at_most_one o k uses h = ground arith

  -- On a good store that does not hold the job, whose identifier is dispatched at most once: under
  -- every interleaving of dispatches and workers, an attempt at the job is made at most once.
  pub attempt_made_once :
      (s : S) (handlers : Dict HandlerEntry) (lease n : ℕ) (es : List (PersistentEvent I))
      → laws.IsGood s
      → laws.attempts id s ≡ none
      → All (IsSoundEvent laws.IsSound) es
      → sum (dispatches_of id) es ≤ 1
      → sum
          (done id a)
          (persistent_run store text es (start_persistent s handlers lease n)).executed
        ≤ 1
  attempt_made_once s handlers lease n es good fresh sound once =
      let q = start_persistent s handlers lease n in
      let f =
        run-Fits 0 es q sound (omega (arith, once)) (start-Fits s handlers lease n good fresh) in
      let bounded = at_most_one _ _ _ f.fits in omega (arith, bounded)
