-- ===== src/JobQueue/FileCalls.antt =====
-- What the calls of a FileJobStore do to the attempts of a job, backend/framework/file_job_store.go.
use bridra.Common.{
  ℕ, ◌+◌, ◌≡◌, ◌≢◌, ◌⊎◌, refl, sym, ap, ◌∙◌, Option, none, some, String, arith, inl, inr, eq_iff,
  Option-cases, Bool-cases, ◌=s=◌, true,
}
use bridra.Common.Dict.{lookup, insert, lookup-insert, lookup-delete}
use bridra.JobStore.Job.{
  Error, fresh_record, Result, ok, err, Context, StoredJob, JobReservation, FileStoredJob, Json,
  valid_job_identifier, normalize_error,
}
use bridra.JobStore.Log.{Event, enqueue, release, complete, fail, Write, Jobs, append}
use bridra.JobStore.Operations.{
  Store, enqueue_job, reserve_job, release_job, complete_job, fail_job, commit, close, reserved,
  released, failed, select, ready, reserve_record, reservation_of,
}
use bridra.JobStore.Updates.{
  Update, admitted, leased, returned, completed, buried, revived, forgotten, Effect, kept, shut,
  changed,
}
use bridra.JobStore.Invariant.{IsWellFormed}
use bridra.JobStore.Reserving.{reserve_job-Granted}
use bridra.JobStore.Selection.{select-lookup}
use bridra.JobQueue.Persistent.{JobStore}
use bridra.JobQueue.StoreLaws.{Counts}

-- What a call of a FileJobStore reads from outside
pub record FileInput : Type 0 where
  pub context : Context
  pub write : Write
  pub token : Option String
  pub clock : ℕ

-- A worker completes, releases and fails with context.Background().
unfoldable pub file_store : Json Event → JobStore Store FileInput
file_store json = record {
  enqueue = λ i job s. enqueue_job json i.context i.write job s;
  reserve = λ i now lease s. reserve_job json i.context i.write i.token now lease s;
  release = λ i r at message s. release_job json Context.live i.write r at message s;
  complete = λ i r s. complete_job json Context.live i.write r s;
  fail = λ i r message s. fail_job json Context.live i.write i.clock r message s;
}

abbrev pub attempts_of : Option FileStoredJob → Option ℕ
attempts_of none = none
attempts_of (some r) = some r.job.attempts

abbrev pub stored_attempts : String → Store → Option ℕ
stored_attempts id s = attempts_of (lookup id s.jobs)

-- The random source gives valid tokens, and the clock is past the zero time.
abbrev pub IsSoundToken : Option String → Type 0
IsSoundToken none = Unit {0}
IsSoundToken (some token) = valid_job_identifier token ≡ true

abbrev pub IsSoundInput : FileInput → Type 0
IsSoundInput i = IsSoundToken i.token × (i.clock ≢ 0)

-- Events that end or return a job
abbrev pub IsEnd : Event → Type 0
IsEnd (release id token at message) = Unit {0}
IsEnd (complete id token) = Unit {0}
IsEnd (fail id token message at) = Unit {0}
IsEnd _ = ⊥

committed :
    (json : Json Event) (w : Write) (e : Event) (jobs : Jobs) (s : Store)
    → ((commit json w e jobs s).1.jobs ≡ jobs) ⊎ ((commit json w e jobs s).1.jobs ≡ s.jobs)
unfolding commit append
committed json w e jobs s = ground arith

module _ (json : Json Event) (s : Store) (id : String) where
  update-Ages :
      {e : Event} {jobs : Jobs}
      → IsEnd e
      → Update json s e jobs
      → (attempts_of (lookup id jobs) ≡ stored_attempts id s)
        ⊎ (attempts_of (lookup id jobs) ≡ none)
  update-Ages p (admitted job valid free new) = absurd p
  update-Ages p (leased r token until hit valid timed) = absurd p
  update-Ages p (returned at token message time r hit same named timed) = ground (
    arith,
    lookup-insert at id (released time (normalize_error message) r) s.jobs,
    eq_iff at id,
    hit,
  )
  update-Ages p (completed at token r hit same named) =
      ground (arith, lookup-delete at id s.jobs, eq_iff at id)
  update-Ages p (buried at token message time r hit same named timed) = ground (
    arith,
    lookup-insert at id (failed time (normalize_error message) r) s.jobs,
    eq_iff at id,
    hit,
  )
  update-Ages p (revived at time r hit dead timed) = absurd p
  update-Ages p (forgotten at r hit dead) = absurd p

  pub effect-Ages :
      {w : Write} {t : Store}
      → Effect IsEnd json s w t
      → (stored_attempts id t ≡ stored_attempts id s) ⊎ (stored_attempts id t ≡ none)
  unfolding close
  effect-Ages kept = inl refl
  effect-Ages shut = inl refl
  effect-Ages {w} (changed {e} {jobs} p u) = elim (committed json w e jobs s) [
    | inl done ↦ rw done (update-Ages p u)
    | inr undone ↦ inl (ap (λ m. attempts_of (lookup id m)) undone)
  ]

-- The events that add a job
abbrev pub IsAdmission : StoredJob → Event → Type 0
IsAdmission job (enqueue (some new)) = new ≡ job
IsAdmission job _ = ⊥

module _ (json : Json Event) (s : Store) (id : String) (job : StoredJob) where
  -- What adds a job does to the attempts.
  abbrev AddsTo : Jobs → Type 0
  AddsTo jobs =
      (attempts_of (lookup id jobs) ≡ stored_attempts id s)
      ⊎ ((id ≡ job.id)
          × (stored_attempts id s ≡ none)
          × (attempts_of (lookup id jobs) ≡ some job.attempts))

  update-Adds : {e : Event} {jobs : Jobs} → IsAdmission job e → Update json s e jobs → AddsTo jobs
  update-Adds p (admitted new valid free fresh) =
      ground (arith, lookup-insert new.id id (fresh_record new) s.jobs, eq_iff new.id id, fresh, p)
  update-Adds p (leased r token until hit valid timed) = absurd p
  update-Adds p (returned at token message time r hit same named timed) = absurd p
  update-Adds p (completed at token r hit same named) = absurd p
  update-Adds p (buried at token message time r hit same named timed) = absurd p
  update-Adds p (revived at time r hit dead timed) = absurd p
  update-Adds p (forgotten at r hit dead) = absurd p

  pub effect-Adds : {w : Write} {t : Store} → Effect (IsAdmission job) json s w t → AddsTo t.jobs
  unfolding close
  effect-Adds kept = inl refl
  effect-Adds shut = inl refl
  effect-Adds {w} (changed {e} {jobs} p u) = elim (committed json w e jobs s) [
    | inl done ↦ rw done (update-Adds p u)
    | inr undone ↦ inl (ap (λ m. attempts_of (lookup id m)) undone)
  ]

granted-Counts :
    (s t : Store) (id k : String) (until : ℕ) (r : FileStoredJob) (res : JobReservation)
    → lookup r.job.id s.jobs ≡ some r
    → res ≡ reservation_of (reserved k until r)
    → t.jobs ≡ insert r.job.id (reserved k until r) s.jobs
    → Counts stored_attempts id s (ok res, t)
granted-Counts s t id k until r res hit granted stored =
    let same_id : res.job.id ≡ r.job.id = ap (λ (x : JobReservation). x.job.id) granted in
    let more : res.job.attempts ≡ r.job.attempts + 1 =
      ap (λ (x : JobReservation). x.job.attempts) granted in
    let found = ap (lookup id) stored ∙ lookup-insert r.job.id id (reserved k until r) s.jobs in
    elim (Bool-cases (r.job.id =s= id)) [
      | inl same ↦
          let is : r.job.id ≡ id = ground (arith, eq_iff r.job.id id) in
          inr (
            sym is ∙ sym same_id,
            (
              r.job.attempts,
              ap (λ j. attempts_of (lookup j s.jobs)) (sym is) ∙ ap attempts_of hit,
              ground (arith, found, same),
              more,
            ),
          )
      | inr other ↦ inl (
        λ e. absurd (ground (arith, e, same_id, other, eq_iff r.job.id id)),
        ground (arith, found, other),
      )
    ]

module _ (json : Json Event) (s : Store) (now lease : ℕ) where
  refused_without :
      (ctx : Context) (w : Write) (token : Option String) (t : Store) (e : Error)
      → reserve_job json ctx w token now lease s ≡ (err e, t)
      → select now s.jobs ≡ none
      → t.jobs ≡ s.jobs
  unfolding reserve_job ready
  refused_without Context.nil w token t e h due = ground arith
  refused_without Context.done w token t e h due = ground arith
  refused_without Context.live w token t e h due = ground arith

  refused_with :
      (ctx : Context) (w : Write) (token : Option String) (t : Store) (e : Error)
      (r : FileStoredJob)
      → reserve_job json ctx w token now lease s ≡ (err e, t)
      → select now s.jobs ≡ some r
      → t.jobs ≡ s.jobs
  unfolding reserve_job ready reserve_record commit append
  refused_with Context.nil w token t e r h due = ground arith
  refused_with Context.done w token t e r h due = ground arith
  refused_with Context.live w none t e r h due = ground arith
  refused_with Context.live w (some k) t e r h due = ground arith

module _ (json : Json Event) (s : Store) (id : String) (ctx : Context) (w : Write)
    (token : Option String) (now lease : ℕ) where
  refused_keeps :
      (t : Store) (e : Error)
      → reserve_job json ctx w token now lease s ≡ (err e, t)
      → t.jobs ≡ s.jobs
  unfolding reserve_job ready reserve_record commit append
  refused_keeps t e h = elim (Option-cases (select now s.jobs)) [
    | inl none_due ↦ refused_without json s now lease ctx w token t e h none_due
    | inr (r, due) ↦ refused_with json s now lease ctx w token t e r h due
  ]

  pub reserve-Counts_of :
      (o : Result JobReservation × Store)
      → reserve_job json ctx w token now lease s ≡ o
      → IsWellFormed s
      → Counts stored_attempts id s o
  reserve-Counts_of (err e, t) h f = ap (λ m. attempts_of (lookup id m)) (refused_keeps t e h)
  reserve-Counts_of (ok res, t) h f =
      let (k, drawn, g) = reserve_job-Granted json s t ctx w token now lease res h in
      let hit = (select-lookup now s.jobs g.record_ f.sound g.selected).0 in
      granted-Counts s t id k (now + lease) g.record_ res hit g.reservation g.stored
