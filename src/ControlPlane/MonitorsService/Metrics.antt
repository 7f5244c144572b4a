-- ===== src/ControlPlane/MonitorsService/Metrics.antt =====
-- GetMonitorMetrics of internal/app/control-plane/api/monitors/service.go. `F` stands for float64, `zero_f` and
-- `ratio` for its 0 and the quotient of two counts, `minutes` for the view ts.results_agg_1m.
pub mod Scanned
use openseer.Base.{
  ℕ, ◌-◌, String, Option, none, some, List, map, ltb, if◌then◌else◌, string_eq, nat_eq, ◌==◌,
  Result, ok, err,
}
use openseer.ControlPlane.MonitorsService.{lookup_code, by_user_query}
use openseer.ControlPlane.WorkerService.{Code, invalid_argument, internal}
use openseer.Store.Db.{Database, Db, statement}
use openseer.Store.Errors.{DbError}
use openseer.Store.Monitors.{AppMonitor}
use openseer.Store.Results.Metrics.{
  MinuteRow, DriverValue, null_value, int64_value, float64_value, TsResultsAgg1m,
  get_aggregated_metrics,
}
use openseer.Store.Results.Uptime.{day}

pub record MonitorMetrics (F : Type 0) : Type 0 where
  pub monitor_id : String
  pub region : String
  pub bucket : ℕ
  pub count : ℕ
  pub error_count : ℕ
  pub error_rate : F
  pub p50_ms : F
  pub p95_ms : F
  pub p99_ms : F
  pub min_ms : F
  pub max_ms : F
  pub avg_ms : F

-- The time the message gives, or the default.
abbrev pub time_or : ℕ → Option ℕ → ℕ
time_or t none = t
time_or t (some given) = given

module _ {F : Type 0} (zero_f : F) (ratio : ℕ → ℕ → F) where
  -- `if minMs, ok := metric.MinMs.(float64); ok`: 0 for a value of any other type.
  abbrev pub float_or_zero : DriverValue F → F
  float_or_zero null_value = zero_f
  float_or_zero (int64_value n) = zero_f
  float_or_zero (float64_value x) = x

  unfoldable pub to_metrics : TsResultsAgg1m F → MonitorMetrics F
  to_metrics m = record {
    monitor_id = m.monitor_id;
    region = m.region;
    bucket = m.bucket;
    count = m.count;
    error_count = m.error_count;
    error_rate = if ltb 0 m.count then ratio m.error_count m.count else zero_f;
    p50_ms = m.p50_ms;
    p95_ms = m.p95_ms;
    p99_ms = m.p99_ms;
    min_ms = float_or_zero m.min_ms;
    max_ms = float_or_zero m.max_ms;
    avg_ms = m.avg_ms;
  }

  module _ (minutes : List (MinuteRow F)) where
    abbrev pub metrics_query : String → ℕ → ℕ → Db (List (TsResultsAgg1m F))
    metrics_query id from to s = (get_aggregated_metrics id from to minutes, s)

    abbrev pub metrics_of :
        Result DbError (List (TsResultsAgg1m F)) → Result Code (List (MonitorMetrics F))
    metrics_of (ok rows) = ok (map to_metrics rows)
    metrics_of (err e) = err internal

    unfoldable pub metrics_for :
        String
        → Option ℕ
        → Option ℕ
        → Result DbError AppMonitor
        → Database
        → Result Code (List (MonitorMetrics F)) × Database
    metrics_for id start end (err e) s = (err (lookup_code e), s)
    metrics_for id start end (ok m) s =
        let (rows, s') =
          statement (metrics_query id (time_or (s.clock - day) start) (time_or s.clock end)) s in
        (metrics_of rows, s')

    unfoldable pub get_monitor_metrics :
        String
        → String
        → Option ℕ
        → Option ℕ
        → Database
        → Result Code (List (MonitorMetrics F)) × Database
    unfolding metrics_for
    get_monitor_metrics user id start end s =
        let (r, s') = statement (by_user_query id user) s in
        if id == "" then (err invalid_argument, s) else metrics_for id start end r s'
