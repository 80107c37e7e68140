-- ===== src/JobQueue/Promotions.antt =====
-- The heap, the scheduler and promoted jobs, backend/framework/jobs_delayed.go.
use bridra.Common.{
  ℕ, ◌+◌, ◌≡◌, refl, sym, ap, ◌∙◌, Option, some, List, [], ◌∷◌, ltb, if_rule, length, arith,
  Bool-cases, Option-cases, inl, inr,
}
use bridra.Common.Sums.{sum, sum-append, one}
use bridra.JobQueue.Queue.{
  Queue, ScheduledJob, Scheduler, selecting, draining, flushing, promoting, flushing_one, less,
  least_of, pop,
}
use bridra.JobQueue.Steps.{receive, fire, promote, stop_selecting, flush, flush_least}
use bridra.JobQueue.Places.{IsAccounted, scheduled_one, promoted_one, waiting_jobs}

popped-injective :
    (p r : ScheduledJob × List ScheduledJob)
    → ◌≡◌ {A = Option (ScheduledJob × List ScheduledJob)} (some p) (some r)
    → p ≡ r
popped-injective p r h = cc

module _ (f : ScheduledJob → ℕ) where
  least_of-sum :
      (a : ScheduledJob) (heap : List ScheduledJob)
      → f (least_of a (pop heap)).0 + sum f (least_of a (pop heap)).1 ≡ f a + sum f heap
  unfolding pop sum
  least_of-sum a [] = refl
  least_of-sum a (b ∷ heap) =
      let rest = least_of-sum b heap in
      elim (Bool-cases (less (least_of b (pop heap)).0 a)) [
        | inl e ↦ rw (e, sum) (omega (arith, rest))
        | inr e ↦ rw (e, sum) (omega (arith, rest))
      ]

  -- The least job and the others weigh what the heap weighs.
  pub pop-sum :
      (heap : List ScheduledJob) (popped : ScheduledJob × List ScheduledJob)
      → pop heap ≡ some popped
      → f popped.0 + sum f popped.1 ≡ sum f heap
  unfolding pop sum
  pop-sum [] popped h = absurd (ground (arith, h))
  pop-sum (a ∷ heap) popped h =
      ap (λ p. f p.0 + sum f p.1) (sym (popped-injective _ popped h)) ∙ least_of-sum a heap

module _ (l : ℕ) where
  pub receive-IsAccounted :
      (q : Queue) (scheduled : List ScheduledJob) (scheduler : Scheduler)
      → IsAccounted l (record q { scheduled = scheduled; scheduler = scheduler })
      → scheduler ≡ q.scheduler
      → scheduled ≡ q.scheduled
      → IsAccounted l (receive q scheduled scheduler)
  unfolding receive waiting_jobs sum
  receive-IsAccounted q scheduled scheduler h same full = ground arith

  -- The least pending job goes to the scheduler, which has none.
  popped-IsAccounted :
      (q : Queue) (place : ScheduledJob → Scheduler) (popped : ScheduledJob × List ScheduledJob)
      → ((s : ScheduledJob) → promoted_one l (place s) ≡ one l s.job)
      → pop q.pending ≡ some popped
      → promoted_one l q.scheduler ≡ 0
      → IsAccounted l q
      → IsAccounted l (record q { scheduler = place popped.0; pending = popped.1 })
  unfolding waiting_jobs
  popped-IsAccounted q place popped held h idle balance =
      omega (arith, balance, held popped.0, pop-sum (scheduled_one l) q.pending popped h, idle)

  pub fire-IsAccounted :
      (now : ℕ) (q : Queue) (scheduler : Scheduler)
      → scheduler ≡ q.scheduler
      → IsAccounted l q
      → IsAccounted l (fire now q scheduler)
  unfolding fire promoted_one
  fire-IsAccounted now q selecting same balance = elim (Option-cases (pop q.pending)) [
    | inl e ↦ rw (e, fire) balance
    | inr (popped, e) ↦
        rw (e, fire)
          (if_rule (IsAccounted l) (ltb now popped.0.ready_at) q _ balance (
            popped-IsAccounted q promoting popped (λ s. refl) e (ap (promoted_one l) (sym same))
              balance))
  ]
  fire-IsAccounted now q _ same balance = balance

  pub promote-IsAccounted :
      (q : Queue) (scheduler : Scheduler)
      → scheduler ≡ q.scheduler
      → IsAccounted l q
      → IsAccounted l (promote q scheduler)
  unfolding promote waiting_jobs promoted_one sum
  promote-IsAccounted q (promoting s) same balance =
      if_rule (IsAccounted l) (ltb (length q.jobs) q.capacity) _ q
        (omega (arith, balance, ap (promoted_one l) same, sum-append (one l) q.jobs (s.job ∷ [])))
        balance
  promote-IsAccounted q (flushing_one s) same balance =
      if_rule (IsAccounted l) (ltb (length q.jobs) q.capacity) _ q
        (omega (arith, balance, ap (promoted_one l) same, sum-append (one l) q.jobs (s.job ∷ [])))
        balance
  promote-IsAccounted q _ same balance = balance

  pub stop_selecting-IsAccounted :
      (q : Queue) (scheduler : Scheduler)
      → scheduler ≡ q.scheduler
      → IsAccounted l q
      → IsAccounted l (stop_selecting q scheduler)
  unfolding stop_selecting waiting_jobs promoted_one
  stop_selecting-IsAccounted q scheduler same balance = ground arith

  flush_least-IsAccounted :
      (q : Queue)
      → promoted_one l q.scheduler ≡ 0
      → IsAccounted l q
      → IsAccounted l (flush_least q (pop q.pending))
  unfolding waiting_jobs promoted_one
  flush_least-IsAccounted q idle balance = elim (Option-cases (pop q.pending)) [
    | inl e ↦ rw e (omega (arith, balance, idle))
    | inr (popped, e) ↦ rw e (popped-IsAccounted q flushing_one popped (λ s. refl) e idle balance)
  ]

  pub flush-IsAccounted :
      (q : Queue) (scheduled : List ScheduledJob) (scheduler : Scheduler)
      → scheduler ≡ q.scheduler
      → IsAccounted l q
      → IsAccounted l (flush q scheduled scheduler)
  unfolding flush waiting_jobs promoted_one
  flush-IsAccounted q [] draining same balance = omega (arith, balance, ap (promoted_one l) same)
  flush-IsAccounted q [] flushing same balance =
      flush_least-IsAccounted q (ap (promoted_one l) (sym same)) balance
  flush-IsAccounted q (s ∷ rest) flushing same balance =
      flush_least-IsAccounted q (ap (promoted_one l) (sym same)) balance
  flush-IsAccounted q _ _ same balance = balance
