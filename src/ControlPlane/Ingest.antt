-- ===== src/ControlPlane/Ingest.antt =====
-- internal/app/control-plane/metrics/ingest.go: results on their way from a worker into ts.results_raw,
-- and back to the readers.
use openseer.Base.{
  ℕ, zero, suc, String, Option, none, some, List, map, if◌then◌else◌, string_eq, nat_eq, ◌==◌, ok,
}
use openseer.Base.Int.{ℤ, pos, negsuc}
use openseer.Store.Db.{Db, statement}
use openseer.Store.Results.{
  ResultRow, upsert_result, get_recent_results, get_latest_result_per_monitor,
}

-- The message MonitorResult of gen/openseer/v1.
pub record MonitorResult : Type 0 where
  pub run_id : String
  pub monitor_id : String
  pub region : String
  pub event_at : ℕ
  pub status : String
  pub http_code : Option ℤ
  pub dns_ms : Option ℤ
  pub connect_ms : Option ℤ
  pub tls_ms : Option ℤ
  pub ttfb_ms : Option ℤ
  pub download_ms : Option ℤ
  pub total_ms : Option ℤ
  pub size_bytes : Option ℤ
  pub error_message : Option String

-- The switch of convertStatus and of convertStatusFromDB, which differ in the default.
abbrev pub known_status_or : String → String → String
known_status_or default s =
    if s == "OK"
    then "OK"
    else if s == "FAIL"
    then "FAIL"
    else if s == "ERROR"
    then "ERROR"
    else default

unfoldable pub convert_status : String → String
convert_status = known_status_or "UNKNOWN"

unfoldable pub convert_status_from_db : String → String
convert_status_from_db = known_status_or "ERROR"

-- `x != nil && *x > 0`, else NULL.
abbrev pub positive_only : Option ℤ → Option ℤ
positive_only none = none
positive_only (some (pos zero)) = none
positive_only (some (pos (suc n))) = some (pos (suc n))
positive_only (some (negsuc n)) = none

-- `x != nil && *x != ""`, else NULL.
abbrev pub nonempty_only : Option String → Option String
nonempty_only none = none
nonempty_only (some s) = if s == "" then none else some s

unfoldable pub upsert_params : MonitorResult → ResultRow
unfolding convert_status
upsert_params r = record {
  run_id = r.run_id;
  monitor_id = r.monitor_id;
  region = r.region;
  event_at = r.event_at;
  status = convert_status r.status;
  http_code = positive_only r.http_code;
  dns_ms = positive_only r.dns_ms;
  connect_ms = positive_only r.connect_ms;
  tls_ms = positive_only r.tls_ms;
  ttfb_ms = positive_only r.ttfb_ms;
  download_ms = positive_only r.download_ms;
  total_ms = positive_only r.total_ms;
  size_bytes = positive_only r.size_bytes;
  error_message = nonempty_only r.error_message;
}

abbrev pub upsert_query : ResultRow → Db ResultRow
upsert_query row s =
    let (stored, rows) = upsert_result row s.results in (stored, record s { results = rows })

unfoldable pub process_result : MonitorResult → Db ResultRow
process_result r = statement (upsert_query (upsert_params r))

-- A stored row as GetRecentResults reports it.
unfoldable pub from_row : ResultRow → MonitorResult
unfolding convert_status_from_db
from_row r = record {
  run_id = r.run_id;
  monitor_id = r.monitor_id;
  region = r.region;
  event_at = r.event_at;
  status = convert_status_from_db r.status;
  http_code = r.http_code;
  dns_ms = r.dns_ms;
  connect_ms = r.connect_ms;
  tls_ms = r.tls_ms;
  ttfb_ms = r.ttfb_ms;
  download_ms = r.download_ms;
  total_ms = r.total_ms;
  size_bytes = r.size_bytes;
  error_message = r.error_message;
}

-- GetLatestResults reports the key, the status, the HTTP code and the total time only.
unfoldable pub from_latest_row : ResultRow → MonitorResult
unfolding convert_status_from_db
from_latest_row r = record {
  run_id = "";
  monitor_id = r.monitor_id;
  region = r.region;
  event_at = r.event_at;
  status = convert_status_from_db r.status;
  http_code = r.http_code;
  dns_ms = none;
  connect_ms = none;
  tls_ms = none;
  ttfb_ms = none;
  download_ms = none;
  total_ms = r.total_ms;
  size_bytes = none;
  error_message = none;
}

unfoldable pub get_recent : String → ℕ → Db (List MonitorResult)
get_recent monitor_id limit =
    statement (λ s. (ok (map from_row (get_recent_results s.clock monitor_id limit s.results)), s))

unfoldable pub get_latest_results : Db (List MonitorResult)
get_latest_results =
    statement (λ s. (ok (map from_latest_row (get_latest_result_per_monitor s.clock s.results)), s))
