-- ===== src/Tests/Uptime.antt =====
-- Concrete runs of the uptime calls of internal/app/control-plane/api/monitors/service.go.
use openseer.Base.{
  ℕ, ◌+◌, ◌-◌, ◌*◌, ◌/◌, ◌%◌, String, ◌≡◌, refl, Option, none, some, List, [], ◌∷◌, if◌then◌else◌,
  string_eq, nat_eq, ◌==◌, ok, err,
}
use openseer.Base.Int.{pos}
use openseer.Base.Sort.{insert_sorted, sort}
use openseer.ControlPlane.MonitorsService.Fallback.{
  first_counted, raw_24h, ranges_of, uptime_first_counted,
}
use openseer.ControlPlane.MonitorsService.Totals.{timelines_add_up}
use openseer.ControlPlane.MonitorsService.Uptime.{
  fetch_uptime_7d, get_monitor_uptime, fetch_timeline_30d, get_monitor_uptime_timeline,
}
use openseer.ControlPlane.WorkerService.{internal}
use openseer.Store.Db.{Database, through, statement}
use openseer.Store.Monitors.{is_users, get_monitor_by_user}
use openseer.Store.Results.Uptime.{
  UptimeBucket, UptimeRow, sum_of, day, uptime_since, get_uptime_data_7d, get_uptime_data_24h_raw,
  get_uptime_timeline_24h, get_uptime_timeline_7d, scan_rows, get_uptime_timeline_30d,
}
use openseer.Tests.Jobs.{a_result}
use openseer.Tests.Services.{a_database}
use openseer.ControlPlane.Ingest.{upsert_params}
use openseer.ControlPlane.MonitorsService.Metrics.{
  MonitorMetrics, time_or, to_metrics, metrics_for, get_monitor_metrics,
}
use openseer.ControlPlane.MonitorsService.Metrics.Scanned.{Points, metrics-Points}
use openseer.Store.Results.Metrics.{
  MinuteRow, scan_rate, scan_minute, scan_minutes, select_minutes, get_aggregated_metrics,
}

abbrev percent : ℕ → ℕ → ℕ
percent s t = s * 100 / t

abbrev exact : ℕ → ℕ → Option ℕ
exact s t = if s * 100 % t == 0 then some (s * 100 / t) else none

abbrev bucket_of : String → ℕ → ℕ → ℕ → UptimeBucket
bucket_of region bucket s f = record {
  monitor_id = "m1";
  region = region;
  bucket = bucket;
  total_checks = s + f;
  successful_checks = s;
  failed_checks = f;
}

-- No hourly row is within a day of the clock; two regions have daily rows of one day.
abbrev measured_database : Database
measured_database = record a_database {
  hourly = bucket_of "eu" 7_200_000_000_000 3 1 ∷ bucket_of "us" 3_600_000_000_000 4 0 ∷ [];
  daily = bucket_of "eu" 86_400_000_000_000 2 1 ∷ [];
  clock = 100_000_000_000_000;
  faults = [];
}

abbrev week_row : UptimeRow
week_row = record {
  total_checks = 8;
  successful_checks = 7;
  failed_checks = 1;
  uptime_percentage = 87;
}

week_answered : (get_monitor_uptime percent "u1" "m1" "7d" measured_database).0 ≡ ok week_row
unfolding get_monitor_uptime fetch_uptime_7d statement through get_monitor_by_user is_users
    uptime_since
week_answered = refl

uptime_first_counted_example :
    week_row
    ≡ first_counted
        (ranges_of percent "m1" "7d" measured_database)
        (raw_24h percent "m1" measured_database)
uptime_first_counted_example =
    uptime_first_counted percent "m1" "u1" "7d" measured_database week_answered

timelines_add_up_example :
    (sum_of
        (λ p. p.total_checks)
        (get_uptime_timeline_24h percent 9 "m1" (upsert_params a_result ∷ []))
      ≡ (get_uptime_data_24h_raw percent 9 "m1" (upsert_params a_result ∷ [])).total_checks)
    × (sum_of
          (λ p. p.successful_checks)
          (get_uptime_timeline_24h percent 9 "m1" (upsert_params a_result ∷ []))
        ≡ (get_uptime_data_24h_raw percent 9 "m1" (upsert_params a_result ∷ [])).successful_checks)
    × (sum_of (λ p. p.total_checks) (get_uptime_timeline_7d percent 9 "m1" measured_database.hourly)
        ≡ (get_uptime_data_7d percent 9 "m1" measured_database.hourly).total_checks)
    × (sum_of
          (λ p. p.successful_checks)
          (get_uptime_timeline_7d percent 9 "m1" measured_database.hourly)
        ≡ (get_uptime_data_7d percent 9 "m1" measured_database.hourly).successful_checks)
timelines_add_up_example =
    timelines_add_up percent 9 "m1" (upsert_params a_result ∷ []) measured_database.hourly

-- Two thirds of a day's checks succeeded: the view's percentage is no integer, and the scan fails.
month_fails :
    (get_monitor_uptime_timeline percent exact "u1" "m1" "30d" measured_database).0 ≡ err internal
unfolding get_monitor_uptime_timeline fetch_timeline_30d statement through get_monitor_by_user
    is_users get_uptime_timeline_30d scan_rows sort insert_sorted
month_fails = refl

-- A monitor of two regions has two points for one day.
month_repeats :
    get_uptime_timeline_30d exact 9 "m1" (bucket_of "eu" 5 1 0 ∷ bucket_of "us" 5 3 0 ∷ [])
    ≡ ok (
        record { bucket = 5; total_checks = 3; successful_checks = 3; uptime_percentage = 100 }
        ∷ record { bucket = 5; total_checks = 1; successful_checks = 1; uptime_percentage = 100 }
        ∷ [])
unfolding get_uptime_timeline_30d scan_rows sort insert_sorted
month_repeats = refl

abbrev minute_of : ℕ → ℕ → MinuteRow ℕ
minute_of bucket e = record {
  monitor_id = "m1";
  region = "eu";
  bucket = bucket;
  count = 2;
  error_count = e;
  p50_ms = some 40;
  p95_ms = some 50;
  p99_ms = some 50;
  min_ms = some (pos 30);
  max_ms = some (pos 50);
  avg_ms = some 40;
}

abbrev two_minutes : List (MinuteRow ℕ)
two_minutes = minute_of 60_000_000_000 0 ∷ minute_of 120_000_000_000 2 ∷ []

abbrev point_of : ℕ → ℕ → ℕ → MonitorMetrics ℕ
point_of bucket e rate = record {
  monitor_id = "m1";
  region = "eu";
  bucket = bucket;
  count = 2;
  error_count = e;
  error_rate = rate;
  p50_ms = 40;
  p95_ms = 50;
  p99_ms = 50;
  min_ms = 0;
  max_ms = 0;
  avg_ms = 40;
}

abbrev two_points : List (MonitorMetrics ℕ)
two_points = point_of 120_000_000_000 2 100 ∷ point_of 60_000_000_000 0 0 ∷ []

metrics_answered :
    (get_monitor_metrics 0 percent two_minutes "u1" "m1" (some 0) none measured_database).0
    ≡ ok two_points
unfolding get_monitor_metrics metrics_for to_metrics get_aggregated_metrics scan_minutes scan_minute
    scan_rate select_minutes statement through get_monitor_by_user is_users sort insert_sorted
metrics_answered = refl

metrics-Points_example :
    Points 0 percent
      (select_minutes "m1"
        (time_or (measured_database.clock - day) (some 0))
        (time_or measured_database.clock none)
        two_minutes)
      two_points
metrics-Points_example =
    metrics-Points 0 percent two_minutes "u1" "m1" (some 0) none measured_database metrics_answered

-- One of two checks failed: the rate 0.5 does not go into an int32.
metrics_fail :
    (get_monitor_metrics 0 percent (minute_of 5 1 ∷ []) "u1" "m1" (some 0) none measured_database).0
    ≡ err internal
unfolding get_monitor_metrics metrics_for get_aggregated_metrics scan_minutes scan_minute scan_rate
    select_minutes statement through get_monitor_by_user is_users sort insert_sorted
metrics_fail = refl
