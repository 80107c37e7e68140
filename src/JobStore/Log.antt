-- ===== src/JobStore/Log.antt =====
-- The log of backend/framework/file_job_store.go: its events, its file, and its replay.
use bridra.Common.{
  ℕ, ◌+◌, ◌*◌, Bool, true, false, not, ◌&&◌, ◌||◌, Option, none, some, List, [], ◌∷◌, ◌++◌, String,
  ltb, ◌==◌, ◌=s=◌, if◌then◌else◌,
}
use bridra.Common.Dict.{Dict, lookup, insert, delete}
use bridra.JobStore.Job.{
  operation_failed, log_corrupt, Result, ok, err, Bytes, StoredJob, FileStoredJob, Json,
  fresh_record, is_zero, validate_stored_job,
}

-- encoding/json writes a json.RawMessage compacted and safe for HTML. Inside strings the three
-- HTML characters and the two Unicode line separators become \u escapes …
unfoldable pub escape_html : Bytes → Bytes
escape_html [] = []
escape_html (a ∷ b ∷ c ∷ rest) =
    let near = escape_html (b ∷ c ∷ rest) in
    let far = escape_html rest in
    (if a == 0xE2 && b == 0x80 && (c == 0xA8 || c == 0xA9)
      then b'\\' ∷ b'u' ∷ b'2' ∷ b'0' ∷ b'2' ∷ (if c == 0xA8 then b'8' else b'9') ∷ far
      else if a == b'<'
      then b'\\' ∷ b'u' ∷ b'0' ∷ b'0' ∷ b'3' ∷ b'c' ∷ near
      else if a == b'>'
      then b'\\' ∷ b'u' ∷ b'0' ∷ b'0' ∷ b'3' ∷ b'e' ∷ near
      else if a == b'&'
      then b'\\' ∷ b'u' ∷ b'0' ∷ b'0' ∷ b'2' ∷ b'6' ∷ near
      else a ∷ near)
escape_html (a ∷ rest) =
    let near = escape_html rest in
    (if a == b'<'
      then b'\\' ∷ b'u' ∷ b'0' ∷ b'0' ∷ b'3' ∷ b'c' ∷ near
      else if a == b'>'
      then b'\\' ∷ b'u' ∷ b'0' ∷ b'0' ∷ b'3' ∷ b'e' ∷ near
      else if a == b'&'
      then b'\\' ∷ b'u' ∷ b'0' ∷ b'0' ∷ b'2' ∷ b'6' ∷ near
      else a ∷ near)

abbrev is_json_space : ℕ → Bool
is_json_space c = (c == 0x20) || (c == 0x09) || (c == 0x0A) || (c == 0x0D)

-- … and white space outside strings is dropped. The flags say whether the next byte stands in a
-- string, and whether a backslash stands before it.
unfoldable pub drop_space : Bool → Bool → Bytes → Bytes
drop_space in_string escaped [] = []
drop_space true true (c ∷ rest) = c ∷ drop_space true false rest
drop_space true false (c ∷ rest) = c ∷ drop_space (not (c == b'"')) (c == b'\\') rest
drop_space false escaped (c ∷ rest) =
    let tail = drop_space (c == b'"') false rest in (if is_json_space c then tail else c ∷ tail)

unfoldable pub compact : Bytes → Bytes
unfolding escape_html drop_space
compact payload = drop_space false false (escape_html payload)

-- fileJobStoreEvent, with a constructor for each type and the fields that this type uses.
pub data Event : Type 0 where
  enqueue : Option StoredJob → Event
  reserve : String → String → ℕ → ℕ → Event
  release : String → String → ℕ → String → Event
  complete : String → String → Event
  fail : String → String → String → ℕ → Event
  retry : String → ℕ → Event
  forget : String → Event
  other : Event

abbrev pub event_version : ℕ
event_version = 1

abbrev pub event_overhead : ℕ
event_overhead = 64 * 1024

-- A line of the log: the event that json.Decoder reads from it, with its version and the bytes of
-- the line, or text that is no single event.
pub data Line : Type 0 where
  entry : ℕ → ℕ → Event → Line
  malformed : Line

-- The log file: its whole lines, and whether text without a line end follows them.
pub record File : Type 0 where
  pub lines : List Line
  pub partial : Bool

abbrev pub empty_file : File
empty_file = record { lines = []; partial = false }

-- What happens to one append: json.Marshal fails; the write stops after some bytes, or before the
-- first; all is written and Sync fails; or all goes well.
pub data Write : Type 0 where
  unencodable stopped_inside stopped_before unsynced written : Write

-- What json.Decoder reads back of an event that json.Marshal wrote.
unfoldable pub read_back : Event → Event
unfolding compact
read_back (enqueue (some job)) = enqueue (some (record job { payload = compact job.payload }))
read_back event = event

-- A whole line after text with no line end makes one line with it, which is no single event.
unfoldable pub add_line : File → Line → File
add_line file line = record {
  lines = file.lines ++ (if file.partial then malformed else line) ∷ [];
  partial = false;
}

abbrev pub Jobs : Type 0
Jobs = Dict FileStoredJob

module _ (json : Json Event) where
  -- FileJobStore.append
  unfoldable pub append : Write → Event → File → Result (Unit {0}) × File
  unfolding add_line read_back
  append unencodable event file = (err operation_failed, file)
  append stopped_before event file = (err operation_failed, file)
  append stopped_inside event file = (err operation_failed, record file { partial = true })
  append unsynced event file = (
    err operation_failed,
    add_line file (entry (json.line_bytes event) event_version (read_back event)),
  )
  append written event file =
      (ok tt, add_line file (entry (json.line_bytes event) event_version (read_back event)))

-- FileJobStore.replayReservation
unfoldable pub replay_reservation : Jobs → String → String → Option FileStoredJob
replay_reservation jobs id token = elim (lookup id jobs) [
  | none ↦ none
  | some record_ ↦
      if token =s= "" || not (record_.reservation_token =s= token) then none else some record_
]

module _ (valid : Bytes → Bool) (max_payload_bytes : ℕ) where
  -- FileJobStore.applyEvent, on an event of the current version
  unfoldable pub apply_kind : Jobs → Event → Result Jobs
  unfolding replay_reservation
  apply_kind jobs (enqueue none) = err log_corrupt
  apply_kind jobs (enqueue (some job)) =
      if not (validate_stored_job valid max_payload_bytes job)
      then err log_corrupt
      else elim (lookup job.id jobs) [
        | some old ↦ err log_corrupt
        | none ↦ ok (insert job.id (fresh_record job) jobs)
      ]
  apply_kind jobs (reserve id token until attempts) = elim (lookup id jobs) [
    | none ↦ err log_corrupt
    | some old ↦
        if token =s= "" || is_zero until || not (attempts == old.job.attempts + 1)
        then err log_corrupt
        else ok (
            insert id
              (record old {
                job = record old.job { attempts = attempts };
                reservation_token = token;
                reserved_until = until;
              })
              jobs)
  ]
  apply_kind jobs (release id token available_at message) =
      elim (replay_reservation jobs id token) [
        | none ↦ err log_corrupt
        | some old ↦
            if is_zero available_at
            then err log_corrupt
            else ok (
                insert id
                  (record old {
                    job = record old.job { available_at = available_at };
                    reservation_token = "";
                    reserved_until = 0;
                    last_error = message;
                  })
                  jobs)
      ]
  apply_kind jobs (complete id token) = elim (replay_reservation jobs id token) [
    | none ↦ err log_corrupt
    | some old ↦ ok (delete id jobs)
  ]
  apply_kind jobs (fail id token message failed_at) = elim (replay_reservation jobs id token) [
    | none ↦ err log_corrupt
    | some old ↦
        if is_zero failed_at
        then err log_corrupt
        else ok (
            insert id
              (record old {
                reservation_token = "";
                reserved_until = 0;
                failed_at = failed_at;
                last_error = message;
              })
              jobs)
  ]
  apply_kind jobs (retry id available_at) = elim (lookup id jobs) [
    | none ↦ err log_corrupt
    | some old ↦
        if is_zero old.failed_at || is_zero available_at
        then err log_corrupt
        else ok (
            insert id
              (record old {
                job = record old.job { attempts = 0; available_at = available_at };
                failed_at = 0;
                last_error = "";
              })
              jobs)
  ]
  apply_kind jobs (forget id) = elim (lookup id jobs) [
    | none ↦ err log_corrupt
    | some old ↦ if is_zero old.failed_at then err log_corrupt else ok (delete id jobs)
  ]
  apply_kind jobs other = err log_corrupt

  -- FileJobStore.applyEvent
  unfoldable pub apply_event : Jobs → ℕ → Event → Result Jobs
  apply_event jobs version event =
      if version == event_version then apply_kind jobs event else err log_corrupt

  -- One round of the loop of FileJobStore.replay: the length of the line, then its event.
  unfoldable pub replay_line : Jobs → Line → Result Jobs
  unfolding apply_event
  replay_line jobs malformed = err log_corrupt
  replay_line jobs (entry bytes version event) =
      if ltb (max_payload_bytes + event_overhead) bytes
      then err log_corrupt
      else apply_event jobs version event

  -- FileJobStore.replay: the whole lines in order; text after the last line end is cut off.
  unfoldable pub replay : Jobs → List Line → Result Jobs
  replay jobs [] = ok jobs
  replay jobs (line ∷ rest) = elim (replay_line jobs line) [
    | err e ↦ err e
    | ok jobs' ↦ replay jobs' rest
  ]
