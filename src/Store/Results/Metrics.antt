-- ===== src/Store/Results/Metrics.antt =====
-- GetAggregatedMetrics of internal/app/control-plane/store/sqlc/results.sql.go, with TsResultsAgg1m of
-- models.go. `F` stands for float64.
use openseer.Base.{
  ℕ, String, Bool, ◌&&◌, Option, none, some, List, [], ◌∷◌, ltb, leb, if◌then◌else◌, filter, ◌>>=◌,
  string_eq, nat_eq, ◌==◌, Result, ok, err,
}
use openseer.Base.Int.{ℤ}
use openseer.Base.Sort.{sort}
use openseer.Store.Errors.{DbError, constraint}

-- The columns of the view ts.results_agg_1m: error_rate is error_count over count; the percentiles, the
-- extremes (integers) and the average are NULL for a minute in which no result has a total_ms.
pub record MinuteRow (F : Type 0) : Type 0 where
  pub monitor_id : String
  pub region : String
  pub bucket : ℕ
  pub count : ℕ
  pub error_count : ℕ
  pub p50_ms : Option F
  pub p95_ms : Option F
  pub p99_ms : Option F
  pub min_ms : Option ℤ
  pub max_ms : Option ℤ
  pub avg_ms : Option F

-- What the driver leaves in an interface{}: an integer column gives an int64.
pub data DriverValue (F : Type 0) : Type 0 where
  null_value : DriverValue F
  int64_value : ℤ → DriverValue F
  float64_value : F → DriverValue F

pub record TsResultsAgg1m (F : Type 0) : Type 0 where
  pub monitor_id : String
  pub region : String
  pub bucket : ℕ
  pub count : ℕ
  pub error_count : ℕ
  pub error_rate : ℕ
  pub p50_ms : F
  pub p95_ms : F
  pub p99_ms : F
  pub min_ms : DriverValue F
  pub max_ms : DriverValue F
  pub avg_ms : F

-- Scan of the float `e / n` into an int32: refused unless it is an integer, so 0 or 1 for e ≤ n.
unfoldable pub scan_rate : ℕ → ℕ → Result DbError ℕ
scan_rate e n = if e == 0 then ok 0 else if e == n then ok 1 else err constraint

module _ {F : Type 0} where
  -- Scan of a column into a float64: NULL is refused.
  abbrev pub scan_float : Option F → Result DbError F
  scan_float none = err constraint
  scan_float (some x) = ok x

  abbrev pub driver_value : Option ℤ → DriverValue F
  driver_value none = null_value
  driver_value (some n) = int64_value n

  unfoldable pub scan_minute : MinuteRow F → Result DbError (TsResultsAgg1m F)
  unfolding scan_rate
  scan_minute m = do
    rate ← scan_rate m.error_count m.count
    p50 ← scan_float m.p50_ms
    p95 ← scan_float m.p95_ms
    p99 ← scan_float m.p99_ms
    avg ← scan_float m.avg_ms
    ok (record {
      monitor_id = m.monitor_id;
      region = m.region;
      bucket = m.bucket;
      count = m.count;
      error_count = m.error_count;
      error_rate = rate;
      p50_ms = p50;
      p95_ms = p95;
      p99_ms = p99;
      min_ms = driver_value m.min_ms;
      max_ms = driver_value m.max_ms;
      avg_ms = avg;
    })

  -- The rows are scanned until one does not fit.
  unfoldable pub scan_minutes : List (MinuteRow F) → Result DbError (List (TsResultsAgg1m F))
  unfolding scan_minute
  scan_minutes [] = ok []
  scan_minutes (m ∷ minutes) = do row ← scan_minute m; rows ← scan_minutes minutes; ok (row ∷ rows)

  abbrev pub in_range : String → ℕ → ℕ → MinuteRow F → Bool
  in_range monitor_id from to m = m.monitor_id == monitor_id && leb from m.bucket && leb m.bucket to

  -- The selected rows, ORDER BY bucket DESC.
  unfoldable pub select_minutes : String → ℕ → ℕ → List (MinuteRow F) → List (MinuteRow F)
  select_minutes monitor_id from to minutes =
      sort (λ a b. ltb b.bucket a.bucket) (filter (in_range monitor_id from to) minutes)

  unfoldable pub get_aggregated_metrics :
      String → ℕ → ℕ → List (MinuteRow F) → Result DbError (List (TsResultsAgg1m F))
  unfolding scan_minutes select_minutes
  get_aggregated_metrics monitor_id from to minutes =
      scan_minutes (select_minutes monitor_id from to minutes)
