-- ===== src/JobStore/ErrorText.antt =====
-- normalizeFileJobStoreError of backend/framework/file_job_store.go.
use Prim.Native.Char.{len_utf8}
use Prim.Native.String.len
use bridra.Common.{ℕ, ◌-◌, ◌≤◌, String, arith, leb, Bool-cases, inl, inr}
use bridra.JobStore.Job.{byte_length, clip, normalize_error, max_error_bytes}

clip-le : (n : ℕ) (s : String) → byte_length (clip n s) ≤ n
unfolding clip
clip-le n String.[] = rw len.nil (omega arith)
clip-le n (String.◌∷◌ c s) = elim (Bool-cases (leb (len_utf8 c) n)) [
  | inl e ↦ rw e (rw len.cons (ground (arith, clip-le (n - len_utf8 c) s)))
  | inr e ↦ rw e (rw len.nil (omega arith))
]

-- A stored error text has at most max_error_bytes bytes.
pub normalize_error-le : (s : String) → byte_length (normalize_error s) ≤ max_error_bytes
unfolding normalize_error
normalize_error-le s = elim (Bool-cases (leb (byte_length s) max_error_bytes)) [
  | inl e ↦ rw e (ground arith)
  | inr e ↦ rw e (clip-le max_error_bytes s)
]
