-- ===== src/JobQueue/Handlers.antt =====
-- The handlers of a queue, backend/framework/jobs.go: HandleJobWithOptions.
use Prim.Native.Char.{code}
use bridra.Common.{
  ℕ, Bool, true, false, not, ◌||◌, Option, none, some, List, [], ◌∷◌, String, ◌=s=◌, if◌then◌else◌,
  Result, ok, err, ℤ,
}
use bridra.Common.Dict.{Dict, lookup, insert}
use bridra.Common.Texts.{is_space}
use bridra.JobQueue.Queue.{QueueState, collecting, is_collecting}
use bridra.JobQueue.Executing.{JobHandlerOptions, normalize_job_handler_options}

-- jobHandlerEntry, with a reflect.Type as its text. `decode` reads a payload, a list of bytes, as the
-- value of a job, a number, where it can.
pub record HandlerEntry : Type 0 where
  pub job_type : String
  pub name : String
  pub options : JobHandlerOptions ℕ
  pub decode : List ℕ → Option ℕ

-- What a JobQueue knows of its handlers, and what a registration reads of it.
pub record Handlers : Type 0 where
  pub state : QueueState
  pub has_store : Bool
  pub handlers : Dict HandlerEntry
  pub handlers_by_name : Dict HandlerEntry

abbrev pub new_handlers : Bool → Handlers
new_handlers has_store = record {
  state = collecting;
  has_store = has_store;
  handlers = [];
  handlers_by_name = [];
}

pub data HandlerError : Type 0 where
  invalid_job_handler invalid_job_handler_options : HandlerError
  job_handler_registration_closed : HandlerError
  job_handler_already_defined job_handler_name_already_defined : HandlerError

-- strings.TrimSpace
unfoldable pub trim_left : String → String
trim_left String.[] = String.[]
trim_left (String.◌∷◌ c s) =
    let rest = trim_left s in if is_space (code c) then rest else String.◌∷◌ c s

unfoldable pub trim_right : String → String
trim_right String.[] = String.[]
trim_right (String.◌∷◌ c s) =
    let rest = trim_right s in
    if is_space (code c) then (if rest =s= "" then "" else String.◌∷◌ c rest) else String.◌∷◌ c rest

unfoldable pub trim_space : String → String
trim_space s = trim_right (trim_left s)

-- A registration: the name, whether there is a handler, the options, the type and its decoder.
pub record Registration : Type 0 where
  pub name : String
  pub has_handler : Bool
  pub options : JobHandlerOptions ℤ
  pub job_type : String
  pub decode : List ℕ → Option ℕ

abbrev pub entry_of : Registration → JobHandlerOptions ℕ → HandlerEntry
entry_of r normalized = record {
  job_type = r.job_type;
  name = trim_space r.name;
  options = normalized;
  decode = r.decode;
}

abbrev pub is_present : {A : Type 0} → Option A → Bool
is_present none = false
is_present (some a) = true

-- HandleJobWithOptions, from the lock on
unfoldable pub add_handler : HandlerEntry → Handlers → Result HandlerError Handlers
add_handler entry q =
    if not (is_collecting q.state)
    then err job_handler_registration_closed
    else if is_present (lookup entry.job_type q.handlers)
    then err job_handler_already_defined
    else if not q.has_store
    then ok (record q { handlers = insert entry.job_type entry q.handlers })
    else if is_present (lookup entry.name q.handlers_by_name)
    then err job_handler_name_already_defined
    else ok (record q {
      handlers = insert entry.job_type entry q.handlers;
      handlers_by_name = insert entry.name entry q.handlers_by_name;
    })

-- HandleJobWithOptions
unfoldable pub handle_job : Registration → Handlers → Result HandlerError Handlers
handle_job r q =
    if trim_space r.name =s= "" || not r.has_handler
    then err invalid_job_handler
    else elim (normalize_job_handler_options r.options) [
      | err e ↦ err invalid_job_handler_options
      | ok normalized ↦ add_handler (entry_of r normalized) q
    ]

-- The queue after a registration; one that fails leaves it.
abbrev pub after_registration : Handlers → Result HandlerError Handlers → Handlers
after_registration q (err e) = q
after_registration q (ok registered) = registered

unfoldable pub handle_jobs : List Registration → Handlers → Handlers
handle_jobs [] q = q
handle_jobs (r ∷ rs) q = handle_jobs rs (after_registration q (handle_job r q))
