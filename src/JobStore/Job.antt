-- ===== src/JobStore/Job.antt =====
-- backend/framework/job_store.go, and the records and checks of file_job_store.go.
-- A time.Time is a number of nanoseconds, and 0 is the zero time; a duration is a number too.
use Prim.Native.Char.{len_utf8}
use Prim.Native.String.{len}
pub use bridra.Common.{ok, err}
use bridra.Common
use bridra.Common.{
  ℕ, ◌-◌, ◌*◌, Bool, not, ◌&&◌, ◌||◌, List, String, ltb, leb, ◌==◌, if◌then◌else◌, length, all,
}
use bridra.Common.Texts.{codes, is_blank}

-- The errors that the operations return, by the sentinel that errors.Is finds in them.
pub data Error : Type 0 where
  context_unavailable context_done : Error
  store_closed store_empty store_full store_conflict options_invalid : Error
  reservation_invalid operation_failed log_corrupt : Error

abbrev pub Result {ℓ} : Type ℓ → Type ℓ
Result A = Common.Result Error A

-- A context.Context argument: nil, live, or cancelled.
pub data Context : Type 0 where
  nil live done : Context

abbrev pub Bytes : Type 0
Bytes = List ℕ

pub record StoredJob : Type 0 where
  pub id : String
  pub handler : String
  pub payload : Bytes
  pub available_at : ℕ
  pub enqueued_at : ℕ
  pub attempts : ℕ

pub record JobReservation : Type 0 where
  pub job : StoredJob
  pub token : String
  pub reserved_until : ℕ

pub record FailedStoredJob : Type 0 where
  pub job : StoredJob
  pub failed_at : ℕ
  pub error : String

-- fileStoredJob
pub record FileStoredJob : Type 0 where
  pub job : StoredJob
  pub reservation_token : String
  pub reserved_until : ℕ
  pub failed_at : ℕ
  pub last_error : String

abbrev pub is_zero : ℕ → Bool
is_zero t = t == 0

-- A job that is neither reserved nor failed: fileStoredJob{job: job}.
abbrev pub fresh_record : StoredJob → FileStoredJob
fresh_record job = record {
  job = job;
  reservation_token = "";
  reserved_until = 0;
  failed_at = 0;
  last_error = "";
}

abbrev pub max_handler_bytes : ℕ
max_handler_bytes = 1024

abbrev pub max_error_bytes : ℕ
max_error_bytes = 4 * 1024

abbrev pub job_identifier_bytes : ℕ
job_identifier_bytes = 32

abbrev is_hex_digit : ℕ → Bool
is_hex_digit c = (leb b'0' c && leb c b'9') || (leb b'a' c && leb c b'f')

-- validJobIdentifier
unfoldable pub valid_job_identifier : String → Bool
valid_job_identifier value =
    (length (codes value) == job_identifier_bytes * 2) && all is_hex_digit (codes value)

-- Go's len of a string: the bytes of its UTF-8.
abbrev pub byte_length : String → ℕ
byte_length = len

-- value[:n] with the broken character at its end dropped: the longest prefix within n bytes.
unfoldable pub clip : ℕ → String → String
clip n String.[] = String.[]
clip n (String.◌∷◌ c s) =
    let rest = clip (n - len_utf8 c) s in
    (if leb (len_utf8 c) n then String.◌∷◌ c rest else String.[])

-- normalizeFileJobStoreError, on text that is valid UTF-8.
unfoldable pub normalize_error : String → String
unfolding clip
normalize_error value =
    if leb (byte_length value) max_error_bytes then value else clip max_error_bytes value

-- What the store uses of encoding/json: whether a payload is JSON, and the bytes of the line that
-- an event is written as.
pub record Json (Event : Type 0) : Type 0 where
  pub valid : Bytes → Bool
  pub line_bytes : Event → ℕ

-- validateStoredJob
unfoldable pub validate_stored_job : (Bytes → Bool) → ℕ → StoredJob → Bool
unfolding valid_job_identifier is_blank
validate_stored_job valid max_payload_bytes job = not (
    not (valid_job_identifier job.id)
    || is_blank job.handler
    || ltb max_handler_bytes (byte_length job.handler)
    || (length job.payload == 0)
    || ltb max_payload_bytes (length job.payload)
    || not (valid job.payload)
    || is_zero job.available_at
    || is_zero job.enqueued_at)
