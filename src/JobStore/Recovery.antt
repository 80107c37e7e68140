-- ===== src/JobStore/Recovery.antt =====
-- Opening the log of backend/framework/file_job_store.go again gives the store back.
use mathlib.Core.Path.{subst}
use bridra.Common.{ℕ, ◌+◌, ◌≤◌, ◌≡◌, refl, sym, ◌∙◌, Bool, false, List, [], ◌∷◌, ◌++◌, arith, All}
use bridra.JobStore.Job.{Result, ok, err, Bytes, Json}
use bridra.JobStore.Log.{
  Event, Write, Jobs, File, Line, entry, read_back, append, add_line, apply_kind, replay_line,
  replay, event_overhead, event_version,
}
use bridra.JobStore.Operations.{Store, commit, close, open_store}
use bridra.JobStore.History.{Call, run, step, new_store}
use bridra.JobStore.Updates.{Update, Effect, kept, shut, changed, IsSoundCall, step-Effect}
use bridra.JobStore.Invariant.{
  IsWellFormed, IsSoundHistory, Effect-IsWellFormed, new_store-IsWellFormed,
}
use bridra.JobStore.Events.{
  IsCanonical, IsCanonicalCall, Permits-IsCanonical, Fits, Update-apply, Update-IsWritable,
}

pub replay-append :
    (valid : Bytes → Bool) (n : ℕ) (jobs mid : Jobs) (lines : List Line) (line : Line)
    → replay valid n jobs lines ≡ ok mid
    → replay valid n jobs (lines ++ line ∷ []) ≡ replay valid n mid (line ∷ [])
unfolding replay
replay-append valid n jobs mid [] line h = ground arith
replay-append valid n jobs mid (first ∷ lines) line h =
    after_first (replay_line valid n jobs first)
      (λ jobs'. replay-append valid n jobs' mid lines line) h
  where
    after_first :
        (r : Result Jobs)
        → ((jobs' : Jobs)
            → replay valid n jobs' lines ≡ ok mid
            → replay valid n jobs' (lines ++ line ∷ []) ≡ replay valid n mid (line ∷ []))
        → ◌≡◌ {A = Result Jobs}
            (elim r [ err e ↦ err e | ok jobs' ↦ replay valid n jobs' lines ])
            (ok mid)
        → ◌≡◌ {A = Result Jobs}
            (elim r [ err e ↦ err e | ok jobs' ↦ replay valid n jobs' (lines ++ line ∷ []) ])
            (replay valid n mid (line ∷ []))
    after_first (err e) later h = cc
    after_first (ok jobs') later h = later jobs' h

-- The whole lines of the log replay to the map in memory, and no unfinished text follows them.
pub record IsDurable (json : Json Event) (s : Store) : Type 0 where
  pub replays : replay json.valid s.max_payload_bytes [] s.file.lines ≡ ok s.jobs
  pub whole : s.file.partial ≡ false

-- The write went well, or failed before its first byte.
abbrev pub IsCleanWrite : Write → Type 0
IsCleanWrite Write.stopped_inside = ⊥
IsCleanWrite Write.unsynced = ⊥
IsCleanWrite _ = Unit {0}

pub written_line :
    (json : Json Event) (n : ℕ) (jobs next : Jobs) (e : Event)
    → json.line_bytes e ≤ n + event_overhead
    → apply_kind json.valid n jobs (read_back e) ≡ ok next
    → replay json.valid n jobs (entry (json.line_bytes e) event_version (read_back e) ∷ [])
      ≡ ok next
unfolding replay replay_line
written_line json n jobs next e fits applied = ground arith

pub lines-add_line :
    (file : File) (line : Line)
    → file.partial ≡ false
    → (add_line file line).lines ≡ file.lines ++ line ∷ []
unfolding add_line
lines-add_line file line whole = simp whole

commit-IsDurable :
    (json : Json Event) (s : Store) (w : Write) {e : Event} {jobs : Jobs}
    → Fits json s.max_payload_bytes
    → IsWellFormed s
    → IsDurable json s
    → IsCleanWrite w
    → IsCanonical e
    → Update json s e jobs
    → IsDurable json (commit json w e jobs s).1
unfolding commit append add_line
commit-IsDurable json s Write.unencodable fits f d c p u = record {
  replays = d.replays;
  whole = d.whole;
}
commit-IsDurable json s Write.stopped_before fits f d c p u = record {
  replays = d.replays;
  whole = d.whole;
}
commit-IsDurable json s Write.stopped_inside fits f d c p u = elim c [ ]
commit-IsDurable json s Write.unsynced fits f d c p u = elim c [ ]
commit-IsDurable json s Write.written {e} {jobs} fits f d c p u =
    let line = entry (json.line_bytes e) event_version (read_back e) in
    record {
      replays = rw (lines-add_line s.file line d.whole) (
          replay-append json.valid s.max_payload_bytes [] s.jobs s.file.lines line d.replays
          ∙ written_line json s.max_payload_bytes s.jobs jobs e
              (fits e (Update-IsWritable json s f p u)) (Update-apply json s p u));
      whole = refl;
    }

Effect-IsDurable :
    (json : Json Event) (s : Store) (w : Write) {t : Store}
    → Fits json s.max_payload_bytes
    → IsWellFormed s
    → IsDurable json s
    → IsCleanWrite w
    → Effect IsCanonical json s w t
    → IsDurable json t
unfolding close
Effect-IsDurable json s w fits f d c kept = d
Effect-IsDurable json s w fits f d c shut = record { replays = d.replays; whole = d.whole }
Effect-IsDurable json s w fits f d c (changed p u) = commit-IsDurable json s w fits f d c p u

abbrev pub IsCleanHistory : List (Write × Call) → Type 0
IsCleanHistory = All λ c. IsCleanWrite c.0

abbrev pub IsCanonicalHistory : List (Write × Call) → Type 0
IsCanonicalHistory = All λ c. IsCanonicalCall c.1

-- The limits of the store never change.
abbrev SameLimits : Store → Store → Type 0
SameLimits s t = (t.max_jobs ≡ s.max_jobs) × (t.max_payload_bytes ≡ s.max_payload_bytes)

commit-SameLimits :
    (json : Json Event) (s : Store) (w : Write) (e : Event) (jobs : Jobs)
    → SameLimits s (commit json w e jobs s).1
unfolding commit append
commit-SameLimits json s Write.unencodable e jobs = (refl, refl)
commit-SameLimits json s _ e jobs = (refl, refl)

Effect-SameLimits :
    {P : Event → Type 0} (json : Json Event) (s : Store) (w : Write) {t : Store}
    → Effect P json s w t
    → SameLimits s t
unfolding close
Effect-SameLimits json s w kept = (refl, refl)
Effect-SameLimits json s w shut = (refl, refl)
Effect-SameLimits json s w (changed {e} {jobs} p u) = commit-SameLimits json s w e jobs

-- What a history from a new store keeps, under limits n and m.
record Keeps (json : Json Event) (n m : ℕ) (s : Store) : Type 0 where
  well_formed : IsWellFormed s
  durable : IsDurable json s
  max_jobs : s.max_jobs ≡ n
  max_payload_bytes : s.max_payload_bytes ≡ m

module _ (json : Json Event) (n m : ℕ) (fits : Fits json m) where
  step-Keeps :
      (s : Store) (w : Write) (c : Call)
      → Keeps json n m s
      → IsCleanWrite w
      → IsSoundCall c
      → IsCanonicalCall c
      → Keeps json n m (step json s w c)
  step-Keeps s w c k clean v p =
      let effect =
        step-Effect IsCanonical json s w c k.well_formed.sound v (Permits-IsCanonical s c p) in
      let limits = Effect-SameLimits json s w effect in
      record {
        well_formed = Effect-IsWellFormed json s w k.well_formed effect;
        durable =
            Effect-IsDurable json s w (subst (Fits json) (sym k.max_payload_bytes) fits)
              k.well_formed k.durable clean effect;
        max_jobs = limits.0 ∙ k.max_jobs;
        max_payload_bytes = limits.1 ∙ k.max_payload_bytes;
      }

  run-Keeps :
      (s : Store) (cs : List (Write × Call))
      → Keeps json n m s
      → IsCleanHistory cs
      → IsSoundHistory cs
      → IsCanonicalHistory cs
      → Keeps json n m (run json s cs)
  unfolding run
  run-Keeps s [] k clean v p = k
  run-Keeps s ((w, c) ∷ cs) k clean v p =
      run-Keeps (step json s w c) cs (step-Keeps s w c k clean.0 v.0 p.0) clean.1 v.1 p.1

  new_store-Keeps : Keeps json n m (new_store n m)
  unfolding replay
  new_store-Keeps = record {
    well_formed = new_store-IsWellFormed n m;
    durable = record { replays = refl; whole = refl };
    max_jobs = refl;
    max_payload_bytes = refl;
  }

abbrev reopened : Store → Store
reopened s = record s { closed = false }

-- Opening a log whose whole lines are those of `s`: the unfinished text behind them is cut off.
open-Keeps :
    (json : Json Event) (n m : ℕ) (s : Store) (file : File)
    → Keeps json n m s
    → file.lines ≡ s.file.lines
    → open_store json n m file ≡ ok (reopened s)
unfolding open_store
open-Keeps json n m s file k same = ground arith

-- The lines of the log after a call whose write stops inside the line.
commit-stopped :
    (json : Json Event) (s : Store) (e : Event) (jobs : Jobs)
    → (commit json Write.stopped_inside e jobs s).1.file.lines ≡ s.file.lines
unfolding commit append
commit-stopped json s e jobs = refl

Effect-stopped :
    {P : Event → Type 0} (json : Json Event) (s : Store) {t : Store}
    → Effect P json s Write.stopped_inside t
    → t.file.lines ≡ s.file.lines
unfolding close
Effect-stopped json s kept = refl
Effect-stopped json s shut = refl
Effect-stopped json s (changed {e} {jobs} p u) = commit-stopped json s e jobs

module _ (json : Json Event) (n m : ℕ) (fits : Fits json m) (cs : List (Write × Call)) where
  -- After any calls on a new store whose writes went well or failed before their first byte, with
  -- payloads as json.Marshal writes them, valid random tokens and a clock past the zero time, opening
  -- the log gives the store again, job for job, if json.Marshal adds to the payloads of the events
  -- that the store admits no more than the replay allows.
  pub open_store-run :
      IsCleanHistory cs
      → IsSoundHistory cs
      → IsCanonicalHistory cs
      → open_store json n m (run json (new_store n m) cs).file
        ≡ ok (reopened (run json (new_store n m) cs))
  open_store-run clean v p =
      open-Keeps json n m _ _
        (run-Keeps json n m fits _ cs (new_store-Keeps json n m fits) clean v p) refl

  -- After any calls on a new store whose writes went well or failed before their first byte, and one
  -- more call whose write stops inside the line, opening the log gives the store as it was before that
  -- last call: with payloads as json.Marshal writes them, valid random tokens and a clock past the zero
  -- time, and if json.Marshal adds to the payloads of the events that the store admits no more than the
  -- replay allows.
  pub open_store_after_crash :
      (c : Call)
      → IsCleanHistory cs
      → IsSoundHistory cs
      → IsCanonicalHistory cs
      → IsSoundCall c
      → IsCanonicalCall c
      → open_store json n m (step json (run json (new_store n m) cs) Write.stopped_inside c).file
        ≡ ok (reopened (run json (new_store n m) cs))
  open_store_after_crash c clean v p sound q =
      let k =
        run-Keeps json n m fits (new_store n m) cs (new_store-Keeps json n m fits) clean v p in
      open-Keeps json n m _ _ k (
        Effect-stopped json _ (
          step-Effect IsCanonical json _ _ c k.well_formed.sound sound
            (Permits-IsCanonical (run json (new_store n m) cs) c q)))
