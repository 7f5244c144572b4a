-- ===== src/Store/Results/Uptime.antt =====
-- The uptime queries of internal/app/control-plane/store/sqlc/results.sql.go. `percent s t` stands for
-- the database's rounding of s / t * 100 in floating point; `as_int s t` for that float as Scan reads it
-- into an int32, none where it is no integer and Scan refuses it.
pub mod Sums
use openseer.Base.{
  ℕ, ◌+◌, ◌-◌, ◌*◌, ◌%◌, String, Bool, not, ◌&&◌, Option, none, some, List, [], ◌∷◌, map, ltb, leb,
  if◌then◌else◌, length, filter, any, count_if, string_eq, nat_eq, ◌==◌, Result, ok, err,
}
use openseer.Base.Sort.{sort}
use openseer.Store.Errors.{DbError, constraint}
use openseer.Store.Results.{ResultRow, hour}

-- The columns of ts.results_agg_1h and ts.results_agg_1d that the queries read: materialized views of
-- the database, so rows of any age.
pub record UptimeBucket : Type 0 where
  pub monitor_id : String
  pub region : String
  pub bucket : ℕ
  pub total_checks : ℕ
  pub successful_checks : ℕ
  pub failed_checks : ℕ

pub record UptimeRow : Type 0 where
  pub total_checks : ℕ
  pub successful_checks : ℕ
  pub failed_checks : ℕ
  pub uptime_percentage : ℕ

pub record TimelineRow : Type 0 where
  pub bucket : ℕ
  pub total_checks : ℕ
  pub successful_checks : ℕ
  pub uptime_percentage : ℕ

-- SUM, which is 0 after COALESCE when there are no rows.
abbrev pub sum_of {ℓ} : {A : Type ℓ} → (A → ℕ) → List A → ℕ
sum_of f [] = 0
sum_of f (x ∷ xs) = f x + sum_of f xs

-- COALESCE(s / NULLIF(t, 0) * 100, 0)::int
abbrev pub uptime_percent : (ℕ → ℕ → ℕ) → ℕ → ℕ → ℕ
uptime_percent percent s t = if t == 0 then 0 else percent s t

-- `monitor_id = $1 AND bucket >= NOW() - INTERVAL …`
abbrev pub in_period : ℕ → ℕ → String → UptimeBucket → Bool
in_period now period monitor_id b = b.monitor_id == monitor_id && leb now (b.bucket + period)

abbrev pub day : ℕ
day = 24 * hour

unfoldable pub uptime_since : (ℕ → ℕ → ℕ) → ℕ → ℕ → String → List UptimeBucket → UptimeRow
uptime_since percent period now monitor_id buckets =
    let rows = filter (in_period now period monitor_id) buckets in
    record {
      total_checks = sum_of (λ b. b.total_checks) rows;
      successful_checks = sum_of (λ b. b.successful_checks) rows;
      failed_checks = sum_of (λ b. b.failed_checks) rows;
      uptime_percentage =
          uptime_percent percent (sum_of (λ b. b.successful_checks) rows)
            (sum_of (λ b. b.total_checks) rows);
    }

-- These two read the hourly view, the third the daily one.
abbrev pub get_uptime_data_24h : (ℕ → ℕ → ℕ) → ℕ → String → List UptimeBucket → UptimeRow
get_uptime_data_24h percent = uptime_since percent day

abbrev pub get_uptime_data_7d : (ℕ → ℕ → ℕ) → ℕ → String → List UptimeBucket → UptimeRow
get_uptime_data_7d percent = uptime_since percent (7 * day)

abbrev pub get_uptime_data_30d : (ℕ → ℕ → ℕ) → ℕ → String → List UptimeBucket → UptimeRow
get_uptime_data_30d percent = uptime_since percent (30 * day)

abbrev pub is_ok_result : ResultRow → Bool
is_ok_result r = r.status == "OK"

-- The raw results of a monitor in the last 24 hours.
abbrev pub of_last_day : ℕ → String → ResultRow → Bool
of_last_day now monitor_id r = r.monitor_id == monitor_id && leb now (r.event_at + day)

unfoldable pub get_uptime_data_24h_raw : (ℕ → ℕ → ℕ) → ℕ → String → List ResultRow → UptimeRow
get_uptime_data_24h_raw percent now monitor_id results =
    let rows = filter (of_last_day now monitor_id) results in
    record {
      total_checks = length rows;
      successful_checks = count_if is_ok_result rows;
      failed_checks = count_if (λ r. not (is_ok_result r)) rows;
      uptime_percentage = uptime_percent percent (count_if is_ok_result rows) (length rows);
    }

-- time_bucket for a width that divides a day: its origin and Go's zero time are both midnights.
abbrev pub time_bucket : ℕ → ℕ → ℕ
time_bucket width t = t - t % width

-- The distinct values, for GROUP BY.
unfoldable pub group_keys : List ℕ → List ℕ
group_keys [] = []
group_keys (k ∷ keys) =
    let rest = group_keys keys in if any (λ j. j == k) rest then rest else k ∷ rest

-- GROUP BY key with the sums of two weights, ORDER BY key.
unfoldable pub timeline_of {ℓ} :
    {A : Type ℓ} → (ℕ → ℕ → ℕ) → (A → ℕ) → (A → ℕ) → (A → ℕ) → List A → List TimelineRow
unfolding group_keys
timeline_of percent key total successful rows =
    map
      (λ k.
        let group = filter (λ x. key x == k) rows in
        record {
          bucket = k;
          total_checks = sum_of total group;
          successful_checks = sum_of successful group;
          uptime_percentage = uptime_percent percent (sum_of successful group) (sum_of total group);
        })
      (sort (λ a b. ltb a b) (group_keys (map key rows)))

-- One row counted, or not.
abbrev pub one_if : Bool → ℕ
one_if b = if b then 1 else 0

abbrev pub quarter : ℕ
quarter = 900_000_000_000

unfoldable pub get_uptime_timeline_24h :
    (ℕ → ℕ → ℕ) → ℕ → String → List ResultRow → List TimelineRow
unfolding timeline_of
get_uptime_timeline_24h percent now monitor_id results =
    timeline_of percent (λ r. time_bucket quarter r.event_at) (λ r. 1)
      (λ r. one_if (is_ok_result r)) (filter (of_last_day now monitor_id) results)

unfoldable pub get_uptime_timeline_7d :
    (ℕ → ℕ → ℕ) → ℕ → String → List UptimeBucket → List TimelineRow
unfolding timeline_of
get_uptime_timeline_7d percent now monitor_id buckets =
    timeline_of percent (λ b. time_bucket (2 * hour) b.bucket) (λ b. b.total_checks)
      (λ b. b.successful_checks) (filter (in_period now (7 * day) monitor_id) buckets)

abbrev pub daily_row : (ℕ → ℕ → Option ℕ) → UptimeBucket → Option TimelineRow
daily_row as_int b = elim (as_int b.successful_checks b.total_checks) [
  | none ↦ none
  | some p ↦ some (record {
    bucket = b.bucket;
    total_checks = b.total_checks;
    successful_checks = b.successful_checks;
    uptime_percentage = p;
  })
]

abbrev pub add_row :
    Option TimelineRow → Result DbError (List TimelineRow) → Result DbError (List TimelineRow)
add_row none rest = err constraint
add_row (some row) (err e) = err e
add_row (some row) (ok rows) = ok (row ∷ rows)

-- rows.Scan stops at the first row that does not fit.
unfoldable pub scan_rows :
    (ℕ → ℕ → Option ℕ) → List UptimeBucket → Result DbError (List TimelineRow)
scan_rows as_int [] = ok []
scan_rows as_int (b ∷ buckets) = add_row (daily_row as_int b) (scan_rows as_int buckets)

-- One row for each row of the view, so for each region of a day.
unfoldable pub get_uptime_timeline_30d :
    (ℕ → ℕ → Option ℕ) → ℕ → String → List UptimeBucket → Result DbError (List TimelineRow)
unfolding scan_rows
get_uptime_timeline_30d as_int now monitor_id buckets =
    scan_rows as_int
      (sort (λ a b. ltb a.bucket b.bucket) (filter (in_period now (30 * day) monitor_id) buckets))
