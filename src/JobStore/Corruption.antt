-- ===== src/JobStore/Corruption.antt =====
-- Two ways in which backend/framework/file_job_store.go writes a log that it cannot open again.
use mathlib.Core.Path.{subst}
use bridra.Common.{
  ℕ, ◌+◌, ◌≤◌, ◌<◌, ◌≡◌, ◌≢◌, refl, sym, ap, ◌∙◌, inl, inr, Bool, false, Option, none, some, List,
  [], ◌∷◌, ◌++◌, String, arith, length, eq_iff, Option-cases,
}
use bridra.Common.Dict.{lookup, insert, delete, lookup-delete}
use bridra.JobStore.Job.{
  ok, err, Context, StoredJob, JobReservation, FileStoredJob, fresh_record, Json, log_corrupt,
  validate_stored_job, Bytes,
}
use bridra.JobStore.Log.{
  Event, enqueue, reserve, complete, Write, Jobs, File, Line, entry, append, add_line, read_back,
  apply_kind, replay, replay_line, event_version, event_overhead, compact,
}
use bridra.JobStore.Operations.{
  Store, commit, enqueue_job, reserve_job, complete_job, ready, admit, finish_record,
  finish_reservation, open_store,
}
use bridra.JobStore.Reserving.{line_of, reserve_job-Granted}
use bridra.JobStore.Failures.{commit-ok}
use bridra.JobStore.Recovery.{IsDurable, replay-append, written_line, lines-add_line}
use bridra.JobStore.Events.{Update-apply}
use bridra.JobStore.Updates.{completed}
use bridra.JobStore.Invariant.{IsWellFormed}

unsynced_complete :
    (json : Json Event) (s : Store) (res : JobReservation) (r : FileStoredJob)
    → s.closed ≡ false
    → lookup res.job.id s.jobs ≡ some r
    → r.reservation_token ≡ res.token
    → res.token ≢ ""
    → res.job.id ≢ ""
    → (complete_job json Context.live Write.unsynced res s).1
      ≡ record s { file = add_line s.file (line_of json (complete res.job.id res.token)) }
unfolding complete_job finish_reservation ready finish_record commit append
unsynced_complete json s res r opened hit held named keyed =
    ground (arith, eq_iff r.reservation_token res.token, eq_iff res.token "", eq_iff res.job.id "")

whole-add_line : (file : File) (line : Line) → (add_line file line).partial ≡ false
unfolding add_line
whole-add_line file line = refl

reserve_missing :
    (valid : Bytes → Bool) (m : ℕ) (jobs : Jobs) (bytes : ℕ) (id token : String)
    (until attempts : ℕ)
    → lookup id jobs ≡ none
    → replay valid m jobs (entry bytes event_version (reserve id token until attempts) ∷ [])
      ≡ err log_corrupt
unfolding replay replay_line apply_kind
reserve_missing valid m jobs bytes id token until attempts h = ground arith

-- A log that ends in a reserve of a job that the lines before it do not leave.
open_corrupt :
    (json : Json Event) (n m : ℕ) (file : File) (before : List Line) (jobs : Jobs)
    (id token : String) (until attempts : ℕ)
    → file.lines ≡ before ++ line_of json (reserve id token until attempts) ∷ []
    → replay json.valid m [] before ≡ ok jobs
    → lookup id jobs ≡ none
    → open_store json n m file ≡ err log_corrupt
unfolding open_store read_back
open_corrupt json n m file before jobs id token until attempts e h missing =
    let all_lines : replay json.valid m [] file.lines ≡ err log_corrupt = rw e (
      replay-append json.valid m [] jobs before _ h
      ∙ reserve_missing json.valid m jobs _ id token until attempts missing) in
    rw (all_lines, open_store)

module _ (json : Json Event) (n : ℕ) (s u : Store) (res later : JobReservation) (r : FileStoredJob)
    (now lease : ℕ) (token : Option String) where
  -- On an open store whose log replays to its map, let a Complete by the holder of a reservation
  -- write its event and then fail in Sync. If a later Reserve on the store that it leaves returns the
  -- same job, the log is refused as corrupt when it is opened.
  pub unsynced_complete_corrupts :
      IsWellFormed s
      → IsDurable json s
      → s.closed ≡ false
      → lookup res.job.id s.jobs ≡ some r
      → r.reservation_token ≡ res.token
      → res.token ≢ ""
      → res.job.id ≢ ""
      → json.line_bytes (complete res.job.id res.token) ≤ s.max_payload_bytes + event_overhead
      → reserve_job json Context.live Write.written token now lease
          (complete_job json Context.live Write.unsynced res s).1
        ≡ (ok later, u)
      → later.job.id ≡ res.job.id
      → open_store json n s.max_payload_bytes u.file ≡ err log_corrupt
  unsynced_complete_corrupts f d opened hit held named keyed fits reserved same =
      let m = s.max_payload_bytes in
      let line = line_of json (complete res.job.id res.token) in
      let t : Store = record s { file = add_line s.file line } in
      let middle : replay json.valid m [] t.file.lines ≡ ok (delete res.job.id s.jobs) =
        rw (lines-add_line s.file line d.whole) (
          replay-append json.valid m [] s.jobs s.file.lines line d.replays
          ∙ written_line json m s.jobs (delete res.job.id s.jobs) (complete res.job.id res.token)
              fits (Update-apply json s tt (completed res.job.id res.token r hit held named))) in
      let (k, drawn, g) =
        reserve_job-Granted json t u Context.live Write.written token now lease later (
          subst (λ x. reserve_job json Context.live Write.written token now lease x ≡ (ok later, u))
            (unsynced_complete json s res r opened hit held named keyed) reserved) in
      let key : g.record_.job.id ≡ res.job.id =
        ap (λ (x : JobReservation). x.job.id) (sym g.reservation) ∙ same in
      open_corrupt json n m u.file t.file.lines (delete res.job.id s.jobs) g.record_.job.id k
        (now + lease) (g.record_.job.attempts + 1)
        (ap (λ (x : File). x.lines) g.logged ∙ lines-add_line t.file _ (whole-add_line s.file line))
        middle
        (rw (lookup-delete res.job.id g.record_.job.id s.jobs)
          (ground (arith, key, eq_iff res.job.id g.record_.job.id)))

oversized :
    (json : Json Event) (m : ℕ) (jobs : Jobs) (job : StoredJob)
    → m < length (compact job.payload)
    → replay json.valid m jobs (line_of json (enqueue (some job)) ∷ []) ≡ err log_corrupt
unfolding replay replay_line apply_kind read_back validate_stored_job
oversized json m jobs job big = ground arith

module _ (json : Json Event) (n : ℕ) (s : Store) (job : StoredJob) where
  enqueue_job-logged :
      (t : Store)
      → enqueue_job json Context.live Write.written job s ≡ (ok tt, t)
      → t.file ≡ add_line s.file (line_of json (enqueue (some job)))
  unfolding enqueue_job admit ready
  enqueue_job-logged t h = elim (Option-cases (lookup job.id s.jobs)) [
    | inl e ↦
        ap (λ (x : Store). x.file)
          (commit-ok json s t Write.written (enqueue (some job))
            (insert job.id (fresh_record job) s.jobs) (ground (arith, h, e)))
    | inr (r, e) ↦ absurd (ground (arith, h, e))
  ]

  -- On a store whose log replays to its map, an Enqueue that is accepted and whose payload
  -- json.Marshal rewrites to more bytes than the limit leaves a log that is refused as corrupt when
  -- it is opened.
  pub oversized_payload_corrupts :
      (t : Store)
      → IsDurable json s
      → enqueue_job json Context.live Write.written job s ≡ (ok tt, t)
      → s.max_payload_bytes < length (compact job.payload)
      → open_store json n s.max_payload_bytes t.file ≡ err log_corrupt
  unfolding open_store
  oversized_payload_corrupts t d h big =
      let m = s.max_payload_bytes in
      let all_lines : replay json.valid m [] t.file.lines ≡ err log_corrupt =
        rw (ap (λ (x : File). x.lines) (enqueue_job-logged t h) ∙ lines-add_line s.file _ d.whole) (
          replay-append json.valid m [] s.jobs s.file.lines _ d.replays
          ∙ oversized json m s.jobs job big) in
      rw (all_lines, open_store)
