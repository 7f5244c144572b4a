-- ===== src/Store/Results.antt =====
-- internal/app/control-plane/store/sqlc/results.sql.go: the rows of ts.results_raw, their upsert
-- and the queries that return them. Uptime has the counts over buckets of time.
pub mod Upsert
pub mod Uptime
pub mod Metrics
pub mod Queries
use openseer.Base.{
  ℕ, ◌+◌, String, Bool, not, ◌&&◌, ◌||◌, Option, List, [], ◌∷◌, ltb, leb, if◌then◌else◌, take,
  filter, string_eq, nat_eq, ◌==◌, Result, ok, err,
}
use openseer.Base.Sort.{sort}
use openseer.Base.Int.{ℤ}
use openseer.Store.Errors.{DbError, constraint}

pub record ResultRow : Type 0 where
  pub run_id : String
  pub monitor_id : String
  pub region : String
  pub event_at : ℕ
  pub status : String
  pub http_code : Option ℤ
  pub dns_ms : Option ℤ
  pub connect_ms : Option ℤ
  pub tls_ms : Option ℤ
  pub ttfb_ms : Option ℤ
  pub download_ms : Option ℤ
  pub total_ms : Option ℤ
  pub size_bytes : Option ℤ
  pub error_message : Option String

-- The conflict target (run_id, event_at); the column rounds event_at to microseconds, which is left out: two
-- instants within one microsecond are two keys here.
abbrev pub same_result : ResultRow → ResultRow → Bool
same_result a b = a.run_id == b.run_id && a.event_at == b.event_at

-- DO UPDATE SET: all but the key, the monitor and the region.
abbrev pub overwrite : ResultRow → ResultRow → ResultRow
overwrite new old = record new { monitor_id = old.monitor_id; region = old.region }

-- CHECK results_status_check of migrations/000001_init_schema.up.sql.
abbrev pub is_result_status : String → Bool
is_result_status status = status == "OK" || status == "FAIL" || status == "ERROR"

-- INSERT … ON CONFLICT (run_id, event_at) DO UPDATE.
unfoldable pub put_result : ResultRow → List ResultRow → ResultRow × List ResultRow
put_result new [] = (new, new ∷ [])
put_result new (old ∷ rows) =
    let (stored, rest) = put_result new rows in
    if same_result old new
    then (overwrite new old, overwrite new old ∷ rows)
    else (stored, old ∷ rest)

unfoldable pub upsert_result :
    ResultRow → List ResultRow → Result DbError ResultRow × List ResultRow
unfolding put_result
upsert_result new rows =
    let (stored, rest) = put_result new rows in
    if is_result_status new.status then (ok stored, rest) else (err constraint, rows)

-- Nanoseconds in an hour, and in five minutes.
abbrev pub hour : ℕ
hour = 3_600_000_000_000

abbrev pub five_minutes : ℕ
five_minutes = 300_000_000_000

abbrev pub newer : ResultRow → ResultRow → Bool
newer a b = ltb b.event_at a.event_at

-- The last hour of one monitor, newest first. The caller's LIMIT is not negative here.
unfoldable pub get_recent_results : ℕ → String → ℕ → List ResultRow → List ResultRow
get_recent_results now monitor_id limit rows =
    take limit
      (sort newer (filter (λ r. r.monitor_id == monitor_id && leb now (r.event_at + hour)) rows))

-- DISTINCT ON (monitor_id) over rows sorted newest first: the first row of each monitor.
unfoldable pub distinct_on : List ResultRow → List ResultRow
distinct_on [] = []
distinct_on (r ∷ rows) = r ∷ filter (λ q. not (q.monitor_id == r.monitor_id)) (distinct_on rows)

unfoldable pub get_latest_result_per_monitor : ℕ → List ResultRow → List ResultRow
unfolding distinct_on
get_latest_result_per_monitor now rows =
    distinct_on (sort newer (filter (λ r. leb now (r.event_at + five_minutes)) rows))
