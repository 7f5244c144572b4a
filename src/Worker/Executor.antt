-- ===== src/Worker/Executor.antt =====
-- internal/app/worker/executor.go: what a check reports. What the HTTP client and its trace observe is an
-- argument; an instant of the trace that was not reached is 0, Go's zero time.
pub mod Stored
use openseer.Base.{
  ℕ, zero, suc, ◌*◌, String, Bool, ◌&&◌, ◌||◌, Option, none, some, List, ltb, leb, if◌then◌else◌,
  string_eq, nat_eq, ◌==◌,
}
use openseer.Base.Int.{ℤ, pos, negsuc, to_int32, millis_between, exceeds}
use openseer.ControlPlane.Ingest.{MonitorResult}
use openseer.ControlPlane.WorkerService.{MonitorJob}
use openseer.Worker.{Worker, start_job}
use openseer.Worker.Submit.{Round, SubmitEnd, send_result}

-- A response and the instants up to the end of its body, whose length is that of the whole body.
pub record Response : Type 0 where
  pub status_code : ℤ
  pub dns_start : ℕ
  pub dns_done : ℕ
  pub connect_start : ℕ
  pub connect_done : ℕ
  pub tls_start : ℕ
  pub tls_done : ℕ
  pub first_byte : ℕ
  pub read_start : ℕ
  pub read_done : ℕ
  pub finished : ℕ
  pub body_length : ℕ

-- NewRequest fails, Do fails at an instant, or there is a response.
pub data Exchange : Type 0 where
  no_request : String → Exchange
  no_response : String → ℕ → Exchange
  responded : Response → Exchange

abbrev pub status_of : ℤ → String
status_of (pos n) = if leb 200 n && ltb n 400 then "OK" else "FAIL"
status_of (negsuc n) = "FAIL"

abbrev pub max_response_size : ℕ
max_response_size = 10 * 1024 * 1024

-- io.Copy from a LimitedReader.
unfoldable pub read_size : ℕ → ℕ
read_size body = if ltb max_response_size body then max_response_size else body

-- The milliseconds between two instants that were both reached, else 0.
abbrev pub phase : ℕ → ℕ → ℤ
phase start finish = if start == 0 || finish == 0 then pos 0 else millis_between start finish

-- `if ms > 0 { v := int32(ms) }`
abbrev pub reported : ℤ → Option ℤ
reported (pos zero) = none
reported (pos (suc n)) = some (to_int32 (pos (suc n)))
reported (negsuc n) = none

abbrev pub reported_size : ℕ → Option ℤ
reported_size zero = none
reported_size (suc n) = some (pos (suc n))

-- The result before the request: ERROR, with nothing measured.
abbrev pub pending : String → ℕ → MonitorJob → MonitorResult
pending region event_at job = record {
  run_id = job.run_id;
  monitor_id = job.monitor_id;
  region = region;
  event_at = event_at;
  status = "ERROR";
  http_code = none;
  dns_ms = none;
  connect_ms = none;
  tls_ms = none;
  ttfb_ms = none;
  download_ms = none;
  total_ms = none;
  size_bytes = none;
  error_message = none;
}

abbrev pub measured : ℕ → Response → MonitorResult → MonitorResult
measured start r result = record result {
  http_code = some (to_int32 r.status_code);
  status = status_of r.status_code;
  dns_ms = reported (phase r.dns_start r.dns_done);
  connect_ms = reported (phase r.connect_start r.connect_done);
  tls_ms = reported (phase r.tls_start r.tls_done);
  ttfb_ms = reported (if r.first_byte == 0 then pos 0 else millis_between start r.first_byte);
  download_ms = some (to_int32 (millis_between r.read_start r.read_done));
  total_ms = some (to_int32 (millis_between start r.finished));
  size_bytes = reported_size (read_size r.body_length);
}

unfoldable pub check_result : String → ℕ → ℕ → MonitorJob → Exchange → MonitorResult
unfolding read_size
check_result region start event_at job (no_request message) = record (pending region event_at job) {
  error_message = some message;
}
check_result region start event_at job (no_response message failed_at) =
    record (pending region event_at job) {
      error_message = some message;
      total_ms = some (to_int32 (millis_between start failed_at));
    }
check_result region start event_at job (responded r) =
    measured start r (pending region event_at job)

-- Whether the check starts the renewal of its lease.
unfoldable pub renews_lease : Worker → MonitorJob → Bool
renews_lease w job = exceeds job.timeout_ms w.lease_renewal_threshold

-- The check registers its job, measures, and sends what it found.
unfoldable pub execute_check :
    ℕ → ℕ → MonitorJob → Exchange → List Round → Worker → (MonitorResult × SubmitEnd) × Worker
unfolding start_job check_result send_result
execute_check start event_at job exchange rounds w =
    let (end, w') = send_result job.run_id rounds (start_job job.run_id w) in
    ((check_result w.region start event_at job exchange, end), w')
