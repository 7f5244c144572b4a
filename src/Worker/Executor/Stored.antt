-- ===== src/Worker/Executor/Stored.antt =====
-- What the control plane stores (internal/app/control-plane/metrics/ingest.go) of what a check reports
-- (internal/app/worker/executor.go).
use openseer.Base.{
  ℕ, zero, suc, ◌-◌, ◌%◌, ◌^◌, ◌≤◌, ◌<◌, String, ◌≡◌, refl, inl, inr, Bool, false, ◌&&◌, Option,
  none, some, arith, ltb, leb, if◌then◌else◌, ltb→lt, Bool-cases, string_eq, nat_eq, ◌==◌,
}
use openseer.Base.Int.{ℤ, pos, negsuc, low_bits, to_int32, millis_between}
use openseer.ControlPlane.Ingest.{convert_status, positive_only, upsert_params}
use openseer.ControlPlane.WorkerService.{MonitorJob}
use openseer.Store.Results.{ResultRow}
use openseer.Worker.Executor.{
  Exchange, no_request, no_response, responded, status_of, max_response_size, read_size, phase,
  reported, reported_size, check_result,
}

-- NULL, or a number from 1 to 2^31 - 1.
abbrev pub IsMeasure : Option ℤ → Type 0
IsMeasure none = Unit
IsMeasure (some (pos n)) = (0 < n) × (n < 2 ^ 31)
IsMeasure (some (negsuc n)) = ⊥

-- NULL, or a size up to the limit.
abbrev pub IsStoredSize : Option ℤ → Type 0
IsStoredSize none = Unit
IsStoredSize (some (pos n)) = (0 < n) × (n ≤ max_response_size)
IsStoredSize (some (negsuc n)) = ⊥

abbrev pub is_success : ℤ → Bool
is_success (pos n) = leb 200 n && ltb n 400
is_success (negsuc n) = false

-- What the row says of an exchange.
abbrev pub Reports : Exchange → ResultRow → Type 0
Reports (no_request message) row =
    (row.status ≡ "ERROR") × (row.http_code ≡ none) × (row.total_ms ≡ none)
Reports (no_response message failed_at) row =
    (row.status ≡ "ERROR") × (row.http_code ≡ none) × IsMeasure row.total_ms
Reports (responded r) row =
    (row.status ≡ (if is_success r.status_code then "OK" else "FAIL"))
    × IsMeasure row.dns_ms
    × IsMeasure row.connect_ms
    × IsMeasure row.tls_ms
    × IsMeasure row.ttfb_ms
    × IsMeasure row.download_ms
    × IsMeasure row.total_ms
    × IsStoredSize row.size_bytes
    × (row.error_message ≡ none)

pos-IsMeasure : (m : ℕ) → m < 2 ^ 31 → IsMeasure (positive_only (some (pos m)))
pos-IsMeasure zero h = tt
pos-IsMeasure (suc m) h = (omega arith, h)

-- An int32, as a positive number or NULL.
low_bits-IsMeasure : (m : ℕ) → IsMeasure (positive_only (some (low_bits m)))
low_bits-IsMeasure m = elim (Bool-cases (ltb m (2 ^ 31))) [
  | inl e ↦ rw e (pos-IsMeasure m (ltb→lt m (2 ^ 31) e))
  | inr e ↦ rw e tt
]

to_int32-IsMeasure : (x : ℤ) → IsMeasure (positive_only (some (to_int32 x)))
to_int32-IsMeasure (pos n) = low_bits-IsMeasure (n % 2 ^ 32)
to_int32-IsMeasure (negsuc n) = low_bits-IsMeasure (2 ^ 32 - 1 - n % 2 ^ 32)

reported-IsMeasure : (x : ℤ) → IsMeasure (positive_only (reported x))
reported-IsMeasure (pos zero) = tt
reported-IsMeasure (pos (suc n)) = to_int32-IsMeasure (pos (suc n))
reported-IsMeasure (negsuc n) = tt

positive_only-IsStoredSize :
    (n : ℕ) → n ≤ max_response_size → IsStoredSize (positive_only (reported_size n))
positive_only-IsStoredSize zero h = tt
positive_only-IsStoredSize (suc n) h = (omega arith, h)

stored_status : (c : ℤ) → convert_status (status_of c) ≡ (if is_success c then "OK" else "FAIL")
unfolding convert_status
stored_status (pos n) = elim (Bool-cases (leb 200 n && ltb n 400)) [
  | inl e ↦ rw e refl
  | inr e ↦ rw e refl
]
stored_status (negsuc n) = refl

-- The row that is stored for a check: ERROR without an HTTP code when the request could not be made or
-- got no response; else OK for a status code from 200 to 399 and FAIL for any other, each timing NULL or
-- a positive int32, and the size NULL or at most 10 MB.
pub check_reported :
    (region : String) (start event_at : ℕ) (job : MonitorJob) (exchange : Exchange)
    → Reports exchange (upsert_params (check_result region start event_at job exchange))
unfolding upsert_params check_result read_size convert_status
check_reported region start event_at job (no_request message) = (refl, refl, refl)
check_reported region start event_at job (no_response message failed_at) =
    (refl, refl, to_int32-IsMeasure (millis_between start failed_at))
check_reported region start event_at job (responded r) = (
  stored_status r.status_code,
  reported-IsMeasure (phase r.dns_start r.dns_done),
  reported-IsMeasure (phase r.connect_start r.connect_done),
  reported-IsMeasure (phase r.tls_start r.tls_done),
  reported-IsMeasure (if r.first_byte == 0 then pos 0 else millis_between start r.first_byte),
  to_int32-IsMeasure (millis_between r.read_start r.read_done),
  to_int32-IsMeasure (millis_between start r.finished),
  positive_only-IsStoredSize (read_size r.body_length) (ground arith),
  refl,
)
