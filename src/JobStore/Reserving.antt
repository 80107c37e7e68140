-- ===== src/JobStore/Reserving.antt =====
-- What a successful Reserve of backend/framework/file_job_store.go gives, and for how long.
use mathlib.Core.Path.{subst, subst₂}
use bridra.Common.{
  ℕ, ◌+◌, ◌<◌, ◌≡◌, ◌≢◌, refl, sym, ap, ◌∙◌, inl, inr, false, Option, none, some, List, String,
  arith, All, Option-cases, Bool-cases, eq_iff,
}
use bridra.Common.Dict.{lookup, insert, lookup-insert}
use bridra.JobStore.Job.{Result, ok, Context, JobReservation, FileStoredJob, Json, is_zero}
use bridra.JobStore.Log.{
  Event, reserve, Write, Jobs, append, Line, entry, add_line, event_version, read_back,
}
use bridra.JobStore.Operations.{
  Store, commit, eligible, reserve_job, release_job, complete_job, fail_job, select, ready,
  reserve_record, finish_record, finish_reservation, answer, reservation_of, reserved,
}
use bridra.JobStore.Selection.{select-lookup, select_first, select-none}
use bridra.JobStore.Due.{IsDue, NotAfter, eligible-IsDue, NoLater-NotAfter}
use bridra.JobStore.History.{Call, reserves, step, run}
use bridra.JobStore.Updates.{IsSoundCall}
use bridra.JobStore.Events.{IsId-ne-empty}
use bridra.JobStore.Leases.{IsLeased, IsOutsider, run-IsLeased, reserve_spares}
use bridra.JobStore.Invariant.{run-IsWellFormed, IsWellFormed, IsSoundHistory, step-IsWellFormed}

-- The line that an event is written as.
abbrev pub line_of : Json Event → Event → Line
line_of json e = entry (json.line_bytes e) event_version (read_back e)

-- What a successful Reserve did.
pub record Granted (json : Json Event) (token : String) (until now : ℕ) (s t : Store)
    (res : JobReservation) : Type 0 where
  pub record_ : FileStoredJob
  pub selected : select now s.jobs ≡ some record_
  pub reservation : res ≡ reservation_of (reserved token until record_)
  pub stored : t.jobs ≡ insert record_.job.id (reserved token until record_) s.jobs
  pub logged :
      t.file
      ≡ add_line s.file
          (line_of json (reserve record_.job.id token until (record_.job.attempts + 1)))

commit-ok :
    (json : Json Event) (s t : Store) (w : Write) (e : Event) (jobs : Jobs) (r : FileStoredJob)
    (res : JobReservation)
    → answer json r (commit json w e jobs s) ≡ (ok res, t)
    → (res ≡ reservation_of r) × (t.jobs ≡ jobs) × (t.file ≡ add_line s.file (line_of json e))
unfolding commit append
commit-ok json s t Write.unencodable e jobs r res h = ground arith
commit-ok json s t Write.stopped_inside e jobs r res h = ground arith
commit-ok json s t Write.stopped_before e jobs r res h = ground arith
commit-ok json s t Write.unsynced e jobs r res h = ground arith
commit-ok json s t Write.written e jobs r res h = ground arith

reserve_record-Granted :
    (json : Json Event) (s t : Store) (w : Write) (token : Option String) (until now : ℕ)
    (r : FileStoredJob) (res : JobReservation)
    → select now s.jobs ≡ some r
    → reserve_record json w token until r s ≡ (ok res, t)
    → (k : String) × (token ≡ some k) × Granted json k until now s t res
unfolding reserve_record
reserve_record-Granted json s t w none until now r res sel h = absurd (ground arith)
reserve_record-Granted json s t w (some token) until now r res sel h =
    let done = commit-ok json s t w _ _ (reserved token until r) res h in
    (
      token,
      refl,
      record {
        record_ = r;
        selected = sel;
        reservation = done.0;
        stored = done.1;
        logged = done.2;
      },
    )

-- A Reserve that returns a reservation drew a token and stored the selected job under it.
pub reserve_job-Granted :
    (json : Json Event) (s t : Store) (ctx : Context) (w : Write) (token : Option String)
    (now lease : ℕ) (res : JobReservation)
    → reserve_job json ctx w token now lease s ≡ (ok res, t)
    → (k : String) × (token ≡ some k) × Granted json k (now + lease) now s t res
unfolding reserve_job
reserve_job-Granted json s t Context.nil w token now lease res h = absurd (ground arith)
reserve_job-Granted json s t Context.done w token now lease res h = absurd (ground arith)
reserve_job-Granted json s t Context.live w token now lease res h =
    elim (Option-cases (select now s.jobs)) [
      | inl e ↦ absurd (ground (arith, h, e))
      | inr (r, e) ↦
          reserve_record-Granted json s t w token (now + lease) now r res e (ground (arith, h, e))
    ]

-- The job of a granted reservation stands under the token and the term of the reservation.
Granted-IsLeased :
    (json : Json Event) (k : String) (until now : ℕ) (s t : Store) (res : JobReservation)
    → IsWellFormed s
    → Granted json k until now s t res
    → IsLeased res.job.id k until t
unfolding eligible
Granted-IsLeased json k until now s t res f g =
    let r = g.record_ in
    let at_hand = select-lookup now s.jobs r f.sound g.selected in
    record {
      holder = reserved k until r;
      bound =
          subst₂ (λ m j. lookup j m ≡ some (reserved k until r)) (sym g.stored)
            (ap (λ (x : JobReservation). x.job.id) (sym g.reservation))
            (rw (lookup-insert r.job.id r.job.id (reserved k until r) s.jobs)
              (ground (arith, eq_iff r.job.id r.job.id)));
      held = refl;
      ends = refl;
      alive = ground (arith, at_hand.1);
    }

module _ (json : Json Event) (s t : Store) (ctx : Context) (w : Write) (token : Option String)
    (now lease : ℕ) (res : JobReservation) (f : IsWellFormed s)
    (sound : IsSoundCall (reserves ctx token now lease))
    (granted : reserve_job json ctx w token now lease s ≡ (ok res, t)) where
  reserve_job-IsLeased : IsLeased res.job.id res.token (now + lease) t × (res.token ≢ "")
  reserve_job-IsLeased =
      let (k, drawn, g) = reserve_job-Granted json s t ctx w token now lease res granted in
      let same : k ≡ res.token = ap (λ (x : JobReservation). x.token) (sym g.reservation) in
      (
        subst (λ x. IsLeased res.job.id x (now + lease) t) same
            (Granted-IsLeased json k (now + lease) now s t res f g),
        subst (λ x. x ≢ "") same
            (IsId-ne-empty k (subst (λ o. IsSoundCall (reserves ctx o now lease)) drawn sound)),
      )

  reserve_job-IsWellFormed : IsWellFormed t
  unfolding step
  reserve_job-IsWellFormed =
      subst IsWellFormed (ap (λ (o : Result JobReservation × Store). o.1) granted)
        (step-IsWellFormed json s w (reserves ctx token now lease) f sound)

  -- After a Reserve that succeeds on a well-formed store, and then any calls of which none brings
  -- the holder's own reservation and no Reserve comes at or after the end of the lease, a Reserve
  -- made before the end of the lease does not return the same job.
  pub reserve_job_exclusive :
      (cs : List (Write × Call))
      → IsSoundHistory cs
      → All (λ c. IsOutsider res.job.id res.token (now + lease) c.1) cs
      → (u : Store) (ctx' : Context) (w' : Write) (token' : Option String) (later lease' : ℕ)
        (res' : JobReservation)
      → later < now + lease
      → reserve_job json ctx' w' token' later lease' (run json t cs) ≡ (ok res', u)
      → res'.job.id ≢ res.job.id
  reserve_job_exclusive cs v o u ctx' w' token' later lease' res' early again same =
      let (h, named) = reserve_job-IsLeased in
      let f' = run-IsWellFormed json t cs reserve_job-IsWellFormed v in
      let h' =
        run-IsLeased res.job.id res.token (now + lease) named json t cs reserve_job-IsWellFormed v o
          h in
      let (k, drawn, g) =
        reserve_job-Granted json (run json t cs) u ctx' w' token' later lease' res' again in
      let at_hand = select-lookup later (run json t cs).jobs g.record_ f'.sound g.selected in
      reserve_spares res.job.id res.token (now + lease) named (run json t cs) h' later g.record_
        early at_hand.0 at_hand.1 (ap (λ (x : JobReservation). x.job.id) (sym g.reservation) ∙ same)

module _ (json : Json Event) (s : Store) (now lease : ℕ) (key : String) (other : FileStoredJob)
    (hit : lookup key s.jobs ≡ some other) (due : IsDue now other) where
  -- A Reserve that succeeds on a well-formed store returns a job of the map that has not failed, whose
  -- time has come and on which no lease is running, with one attempt more and the term asked for; and
  -- no other such job of the map comes before it by due time, arrival and identifier.
  pub reserve_job_earliest :
      (t : Store) (ctx : Context) (w : Write) (token : Option String) (res : JobReservation)
      → IsWellFormed s
      → reserve_job json ctx w token now lease s ≡ (ok res, t)
      → (r : FileStoredJob) × (lookup r.job.id s.jobs ≡ some r)
        × IsDue now r
        × (res.job ≡ record r.job { attempts = r.job.attempts + 1 })
        × (res.reserved_until ≡ now + lease)
        × NotAfter r.job other.job
  reserve_job_earliest t ctx w token res f granted =
      let (k, drawn, g) = reserve_job-Granted json s t ctx w token now lease res granted in
      let r = g.record_ in
      let at_hand = select-lookup now s.jobs r f.sound g.selected in
      (
        r,
        at_hand.0,
        (eligible-IsDue now r).0 at_hand.1,
        ap (λ (x : JobReservation). x.job) g.reservation,
        ap (λ (x : JobReservation). x.reserved_until) g.reservation,
        NoLater-NotAfter r other
            (select_first now s.jobs r other key g.selected hit ((eligible-IsDue now other).1 due)),
      )

  -- While the map holds a job that has not failed, whose time has come and on which no lease is
  -- running, a Reserve on an open store with a live context, a time and
  -- a lease succeeds if the random source and the write do.
  pub reserve_job_total :
      (token : String)
      → s.closed ≡ false
      → now ≢ 0
      → lease ≢ 0
      → (res : JobReservation) × (t : Store) × (reserve_job json Context.live Write.written
            (some token)
            now
            lease
            s
          ≡ (ok res, t))
  unfolding reserve_job ready commit append reserve_record
  reserve_job_total token opened n l = elim (Option-cases (select now s.jobs)) [
    | inl e ↦ absurd (select-none now s.jobs other key e hit ((eligible-IsDue now other).1 due))
    | inr (r, e) ↦ (
      reservation_of (reserved token (now + lease) r),
      (commit json Write.written (reserve r.job.id token (now + lease) (r.job.attempts + 1))
          (insert r.job.id (reserved token (now + lease) r) s.jobs) s).1,
      ground (arith, e, opened, n, l),
    )
  ]

-- The operation leaves the store as it is and does not succeed.
abbrev pub Refused : Store → Result (Unit {0}) × Store → Type 0
Refused s o = (o.1 ≡ s) × (o.0 ≢ ok tt)

module _ (json : Json Event) (s : Store) (res : JobReservation) (r : FileStoredJob)
    (hit : lookup res.job.id s.jobs ≡ some r) (lost : r.reservation_token ≢ res.token) where
  finish-Refused :
      (ctx : Context) (w : Write) (e : Event) (apply : FileStoredJob → Option FileStoredJob)
      → Refused s (finish_reservation json ctx w res e apply s)
  unfolding finish_reservation ready finish_record
  finish-Refused Context.nil w e apply = ground arith
  finish-Refused Context.done w e apply = ground arith
  finish-Refused Context.live w e apply =
      ground (arith, hit, lost, eq_iff r.reservation_token res.token)

  release-Refused :
      (ctx : Context) (w : Write) (at : ℕ) (message : String)
      → Refused s (release_job json ctx w res at message s)
  unfolding release_job
  release-Refused ctx w at message = elim (Bool-cases (is_zero at)) [
    | inl e ↦ rw (e, release_job) (refl, λ x. cc)
    | inr e ↦ rw (e, release_job) (finish-Refused ctx w _ _)
  ]

  -- Whoever holds a reservation whose token the job no longer bears can neither complete nor release
  -- nor fail the job: the call fails and the store, its log included, stays as it was.
  pub stale_reservation-Refused :
      (ctx : Context) (w : Write) (at : ℕ) (message : String)
      → Refused s (complete_job json ctx w res s)
        × Refused s (release_job json ctx w res at message s)
        × Refused s (fail_job json ctx w at res message s)
  unfolding complete_job fail_job
  stale_reservation-Refused ctx w at message =
      (finish-Refused ctx w _ _, release-Refused ctx w at message, finish-Refused ctx w _ _)
