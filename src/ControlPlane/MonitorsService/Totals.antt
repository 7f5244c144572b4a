-- ===== src/ControlPlane/MonitorsService/Totals.antt =====
-- What the numbers of an uptime answer add up to (internal/app/control-plane/api/monitors/service.go and
-- internal/app/control-plane/store/sqlc/results.sql.go).
use openseer.Base.{
  ℕ, ◌+◌, ◌*◌, String, ◌≡◌, sym, ◌∙◌, subst, inl, inr, Bool, true, List, [], ◌∷◌, arith, Bool-cases,
  All, filter, count_if-split, count_if-true, string_eq, nat_eq, ◌==◌, ok,
}
use openseer.ControlPlane.MonitorsService.Fallback.{first_counted, ranges_of, uptime_first_counted}
use openseer.ControlPlane.MonitorsService.Uptime.{get_monitor_uptime}
use openseer.Store.Db.{Database}
use openseer.Store.Results.{ResultRow}
use openseer.Store.Results.Uptime.{
  UptimeBucket, UptimeRow, sum_of, in_period, day, uptime_since, get_uptime_data_7d, is_ok_result,
  of_last_day, get_uptime_data_24h_raw, one_if, get_uptime_timeline_24h, get_uptime_timeline_7d,
}
use openseer.Store.Results.Uptime.Sums.{
  sum_of_one, sum_of-one_if, timeline_total, timeline_successful,
}

-- The checks of a row are those that succeeded and those that failed.
abbrev pub AddsUp : UptimeRow → Type 0
AddsUp row = row.total_checks ≡ row.successful_checks + row.failed_checks

abbrev pub ViewAddsUp : List UptimeBucket → Type 0
ViewAddsUp = All (λ b. b.total_checks ≡ b.successful_checks + b.failed_checks)

sum_of_split :
    (p : UptimeBucket → Bool) (buckets : List UptimeBucket)
    → ViewAddsUp buckets
    → sum_of (λ b. b.total_checks) (filter p buckets)
      ≡ sum_of (λ b. b.successful_checks) (filter p buckets)
        + sum_of (λ b. b.failed_checks) (filter p buckets)
sum_of_split p [] h = omega arith
sum_of_split p (b ∷ buckets) h = ground (arith, sum_of_split p buckets h.1, h.0)

since-AddsUp :
    (percent : ℕ → ℕ → ℕ) (period now : ℕ) (id : String) (buckets : List UptimeBucket)
    → ViewAddsUp buckets
    → AddsUp (uptime_since percent period now id buckets)
unfolding uptime_since
since-AddsUp percent period now id buckets h = sum_of_split (in_period now period id) buckets h

raw-AddsUp :
    (percent : ℕ → ℕ → ℕ) (now : ℕ) (id : String) (results : List ResultRow)
    → AddsUp (get_uptime_data_24h_raw percent now id results)
unfolding get_uptime_data_24h_raw
raw-AddsUp percent now id results = omega (
  arith,
  count_if-true (filter (of_last_day now id) results),
  count_if-split (λ r. true) is_ok_result (filter (of_last_day now id) results),
)

first_counted-AddsUp :
    (rows : List UptimeRow) (last : UptimeRow)
    → All AddsUp rows
    → AddsUp last
    → AddsUp (first_counted rows last)
unfolding first_counted
first_counted-AddsUp [] last h l = l
first_counted-AddsUp (row ∷ rows) last h l = elim (Bool-cases (row.total_checks == 0)) [
  | inl e ↦ rw e (first_counted-AddsUp rows last h.1 l)
  | inr e ↦ rw e h.0
]

ranges-AddsUp :
    (percent : ℕ → ℕ → ℕ) (id range : String) (s : Database)
    → ViewAddsUp s.hourly
    → ViewAddsUp s.daily
    → All AddsUp (ranges_of percent id range s)
unfolding ranges_of
ranges-AddsUp percent id range s h d =
    let h24 = since-AddsUp percent day s.clock id s.hourly h in
    let h7 = since-AddsUp percent (7 * day) s.clock id s.hourly h in
    let d30 = since-AddsUp percent (30 * day) s.clock id s.daily d in
    elim (Bool-cases (range == "24h")) [
      | inl a ↦ rw a (h24, tt)
      | inr a ↦ elim (Bool-cases (range == "7d")) [
        | inl b ↦ rw (a, b) (h7, (h24, tt))
        | inr b ↦ elim (Bool-cases (range == "30d")) [
          | inl c ↦ rw (a, b, c) (d30, (h7, (h24, tt)))
          | inr c ↦ rw (a, b, c) tt
        ]
      ]
    ]

-- When each row of the hourly and daily views counts as many checks as succeeded and failed, so does an
-- answer of GetMonitorUptime, for any range and whatever became of its statements.
pub uptime-AddsUp :
    (percent : ℕ → ℕ → ℕ) (user id range : String) (s : Database) {row : UptimeRow}
    → ViewAddsUp s.hourly
    → ViewAddsUp s.daily
    → (get_monitor_uptime percent user id range s).0 ≡ ok row
    → AddsUp row
uptime-AddsUp percent user id range s {row} h d answered =
    subst AddsUp (sym (uptime_first_counted percent id user range s answered)) (
      first_counted-AddsUp (ranges_of percent id range s) _ (ranges-AddsUp percent id range s h d)
        (raw-AddsUp percent s.clock id s.results))

-- The points of the 24 hour timeline add up to the counts of the raw results of 24 hours, and those of
-- the 7 day timeline to the counts of the hourly view in 7 days: of all checks and of successful ones.
pub timelines_add_up :
    (percent : ℕ → ℕ → ℕ) (now : ℕ) (id : String) (results : List ResultRow)
    (buckets : List UptimeBucket)
    → (sum_of (λ p. p.total_checks) (get_uptime_timeline_24h percent now id results)
        ≡ (get_uptime_data_24h_raw percent now id results).total_checks)
      × (sum_of (λ p. p.successful_checks) (get_uptime_timeline_24h percent now id results)
          ≡ (get_uptime_data_24h_raw percent now id results).successful_checks)
      × (sum_of (λ p. p.total_checks) (get_uptime_timeline_7d percent now id buckets)
          ≡ (get_uptime_data_7d percent now id buckets).total_checks)
      × (sum_of (λ p. p.successful_checks) (get_uptime_timeline_7d percent now id buckets)
          ≡ (get_uptime_data_7d percent now id buckets).successful_checks)
unfolding get_uptime_timeline_24h get_uptime_timeline_7d get_uptime_data_24h_raw uptime_since
timelines_add_up percent now id results buckets =
    let rows = filter (of_last_day now id) results in
    let kept = filter (in_period now (7 * day) id) buckets in
    (
      timeline_total percent _ (λ r. 1) _ rows ∙ sum_of_one rows,
      timeline_successful percent _ _ (λ r. one_if (is_ok_result r)) rows
          ∙ sum_of-one_if is_ok_result rows,
      timeline_total percent _ (λ b. b.total_checks) _ kept,
      timeline_successful percent _ _ (λ b. b.successful_checks) kept,
    )
