-- ===== src/JobStore/Invariant.antt =====
-- What holds of the store of backend/framework/file_job_store.go after any history.
use bridra.Common.{
  ℕ, ◌≤◌, ◌≡◌, refl, ◌∙◌, ◌⊎◌, inl, inr, true, none, some, List, [], ◌∷◌, String, arith, length,
  All,
}
use bridra.Common.Dict.{lookup, insert, delete, length-delete, length-insert_old, length-insert-le}
use bridra.Common.Entries.{
  insert-Unique, delete-Unique, insert-Entries, delete-Entries, lookup-Entries,
}
use bridra.JobStore.Job.{
  StoredJob, FileStoredJob, Json, fresh_record, valid_job_identifier, validate_stored_job,
}
use bridra.JobStore.Log.{Event, Write, Jobs, append}
use bridra.JobStore.Operations.{Store, commit, close}
use bridra.JobStore.Selection.{IsSoundMap, IsSoundRecord}
use bridra.JobStore.History.{Call, reserves, retries, forgets, run, step, new_store}
use bridra.JobStore.Updates.{
  Update, admitted, leased, returned, completed, buried, revived, forgotten, Effect, kept, shut,
  changed, IsSoundCall, Permits, step-Effect,
}

-- Each key once, each record under its own valid identifier, and no more than max_jobs of them.
pub record IsWellFormed (s : Store) : Type 0 where
  pub sound : IsSoundMap s.jobs
  pub bounded : length s.jobs ≤ s.max_jobs

valid_job-valid_id :
    (json : Json Event) (n : ℕ) (job : StoredJob)
    → validate_stored_job json.valid n job ≡ true
    → valid_job_identifier job.id ≡ true
unfolding validate_stored_job
valid_job-valid_id json n job h = ground arith

module _ (s : Store) (h : IsWellFormed s) where
  -- A record of the map is replaced by one with the same identifier and a sound token.
  replace-IsWellFormed :
      (id : String) (old new : FileStoredJob)
      → lookup id s.jobs ≡ some old
      → new.job.id ≡ old.job.id
      → (new.reservation_token ≡ "") ⊎ (valid_job_identifier new.reservation_token ≡ true)
      → IsWellFormed (record s { jobs = insert id new s.jobs })
  replace-IsWellFormed id old new hit same token =
      let was = lookup-Entries IsSoundRecord id old s.jobs h.sound.1 hit in
      record {
        sound = (
          insert-Unique id new s.jobs h.sound.0,
          insert-Entries IsSoundRecord id new s.jobs
              (record { keyed = same ∙ was.keyed; valid_key = was.valid_key; valid_token = token })
              h.sound.1,
        );
        bounded = omega (arith, length-insert_old id new old s.jobs hit, h.bounded);
      }

  remove-IsWellFormed : (id : String) → IsWellFormed (record s { jobs = delete id s.jobs })
  remove-IsWellFormed id = record {
    sound = (delete-Unique id s.jobs h.sound.0, delete-Entries IsSoundRecord id s.jobs h.sound.1);
    bounded = omega (arith, length-delete id s.jobs, h.bounded);
  }

  token_sound :
      (id : String) (old : FileStoredJob)
      → lookup id s.jobs ≡ some old
      → (old.reservation_token ≡ "") ⊎ (valid_job_identifier old.reservation_token ≡ true)
  token_sound id old hit = (lookup-Entries IsSoundRecord id old s.jobs h.sound.1 hit).valid_token

  Update-IsWellFormed :
      (json : Json Event) {e : Event} {jobs : Jobs}
      → Update json s e jobs
      → IsWellFormed (record s { jobs = jobs })
  Update-IsWellFormed json (admitted job valid room fresh) = record {
    sound = (
      insert-Unique job.id _ s.jobs h.sound.0,
      insert-Entries IsSoundRecord job.id _ s.jobs
          (record {
            keyed = refl;
            valid_key = valid_job-valid_id json s.max_payload_bytes job valid;
            valid_token = inl refl;
          })
          h.sound.1,
    );
    bounded = omega (arith, length-insert-le job.id (fresh_record job) s.jobs);
  }
  Update-IsWellFormed json (leased r token until hit valid timed) =
      replace-IsWellFormed r.job.id r _ hit refl (inr valid)
  Update-IsWellFormed json (returned id token message at r hit same named timed) =
      replace-IsWellFormed id r _ hit refl (inl refl)
  Update-IsWellFormed json (completed id token r hit same named) = remove-IsWellFormed id
  Update-IsWellFormed json (buried id token message at r hit same named timed) =
      replace-IsWellFormed id r _ hit refl (inl refl)
  Update-IsWellFormed json (revived id at r hit dead timed) =
      replace-IsWellFormed id r _ hit refl (token_sound id r hit)
  Update-IsWellFormed json (forgotten id r hit dead) = remove-IsWellFormed id

commit-IsWellFormed :
    (json : Json Event) (s : Store) (w : Write) (e : Event) (jobs : Jobs)
    → IsWellFormed s
    → IsWellFormed (record s { jobs = jobs })
    → IsWellFormed (commit json w e jobs s).1
unfolding commit append
commit-IsWellFormed json s Write.unencodable e jobs h g = record {
  sound = h.sound;
  bounded = h.bounded;
}
commit-IsWellFormed json s Write.stopped_inside e jobs h g = record {
  sound = h.sound;
  bounded = h.bounded;
}
commit-IsWellFormed json s Write.stopped_before e jobs h g = record {
  sound = h.sound;
  bounded = h.bounded;
}
commit-IsWellFormed json s Write.unsynced e jobs h g = record {
  sound = h.sound;
  bounded = h.bounded;
}
commit-IsWellFormed json s Write.written e jobs h g = record {
  sound = g.sound;
  bounded = g.bounded;
}

pub Effect-IsWellFormed :
    {P : Event → Type 0} (json : Json Event) (s : Store) (w : Write) {t : Store}
    → IsWellFormed s
    → Effect P json s w t
    → IsWellFormed t
unfolding close
Effect-IsWellFormed json s w h kept = h
Effect-IsWellFormed json s w h shut = record { sound = h.sound; bounded = h.bounded }
Effect-IsWellFormed json s w h (changed p u) =
    commit-IsWellFormed json s w _ _ h (Update-IsWellFormed s h json u)

abbrev Anything : Event → Type 0
Anything e = Unit {0}

Permits-Anything : (s : Store) (c : Call) → Permits Anything s c
Permits-Anything s (reserves ctx none now lease) = tt
Permits-Anything s (reserves ctx (some token) now lease) = λ _ _ _. tt
Permits-Anything s (retries ctx id at) = λ _ _ _. tt
Permits-Anything s (forgets ctx id) = λ _ _ _. tt
Permits-Anything s _ = tt

pub step-IsWellFormed :
    (json : Json Event) (s : Store) (w : Write) (c : Call)
    → IsWellFormed s
    → IsSoundCall c
    → IsWellFormed (step json s w c)
step-IsWellFormed json s w c h v =
    Effect-IsWellFormed json s w h
      (step-Effect Anything json s w c h.sound v (Permits-Anything s c))

abbrev pub IsSoundHistory : List (Write × Call) → Type 0
IsSoundHistory = All λ c. IsSoundCall c.1

-- After any calls on a well-formed store, whatever the outcomes of their writes, each job stands
-- once, under its own valid identifier, with a token that is absent or valid, and there are at most
-- max_jobs of them; tokens drawn at random are taken to be valid, and the clock past the zero time.
pub run-IsWellFormed :
    (json : Json Event) (s : Store) (cs : List (Write × Call))
    → IsWellFormed s
    → IsSoundHistory cs
    → IsWellFormed (run json s cs)
unfolding run
run-IsWellFormed json s [] h v = h
run-IsWellFormed json s ((w, c) ∷ cs) h v =
    run-IsWellFormed json (step json s w c) cs (step-IsWellFormed json s w c h v.0) v.1

pub new_store-IsWellFormed : (max_jobs max_bytes : ℕ) → IsWellFormed (new_store max_jobs max_bytes)
new_store-IsWellFormed max_jobs max_bytes = record { sound = (tt, tt); bounded = omega arith }
