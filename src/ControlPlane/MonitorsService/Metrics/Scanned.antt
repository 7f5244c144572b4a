-- ===== src/ControlPlane/MonitorsService/Metrics/Scanned.antt =====
-- The answers of GetMonitorMetrics (internal/app/control-plane/api/monitors/service.go).
use openseer.Base.{
  ℕ, ◌-◌, String, ◌≡◌, refl, ap, subst, ◌⊎◌, inl, inr, true, Option, none, some, List, [], ◌∷◌, map,
  arith, Bool-cases, is_some, string_eq, nat_eq, ◌==◌, Result, ok, err, Result-cases, bind_ok,
}
use openseer.ControlPlane.MonitorsService.Metrics.{
  MonitorMetrics, time_or, float_or_zero, to_metrics, metrics_query, metrics_of, metrics_for,
  get_monitor_metrics,
}
use openseer.Store.Errors.{DbError}
use openseer.Store.Results.Metrics.{
  MinuteRow, TsResultsAgg1m, scan_rate, scan_float, driver_value, scan_minute, scan_minutes,
  select_minutes, get_aggregated_metrics,
}
use openseer.Base.Int.{ℤ}
use openseer.ControlPlane.MonitorsService.{by_user_query, found}
use openseer.ControlPlane.WorkerService.{Code}
use openseer.Store.Db.{Database, statement, statement_ok, value_or}
use openseer.Store.Results.Uptime.{day}

-- All checks of the minute failed or none, and some of them has a time.
abbrev pub IsUniform : {F : Type 0} → MinuteRow F → Type 0
IsUniform m = ((m.error_count ≡ 0) ⊎ (m.error_count ≡ m.count)) × (is_some m.avg_ms ≡ true)

scan_rate-cases : (e n : ℕ) {rate : ℕ} → scan_rate e n ≡ ok rate → (e ≡ 0) ⊎ (e ≡ n)
unfolding scan_rate
scan_rate-cases e n h = elim (Bool-cases (e == 0)) [
  | inl z ↦ inl (ground arith)
  | inr z ↦ elim (Bool-cases (e == n)) [
    | inl s ↦ inr (ground arith)
    | inr s ↦ let h' = rw (z, s) at h in absurd (ground arith)
  ]
]

module _ {F : Type 0} (zero_f : F) (ratio : ℕ → ℕ → F) where
  -- What a point has of its minute: the extremes are lost.
  abbrev pub IsPointOf : MinuteRow F → MonitorMetrics F → Type 0
  IsPointOf m p =
      (p.bucket ≡ m.bucket)
      × (p.region ≡ m.region)
      × (p.count ≡ m.count)
      × (p.error_count ≡ m.error_count)
      × (p.min_ms ≡ zero_f)
      × (p.max_ms ≡ zero_f)

  -- One point for each minute, in order.
  abbrev pub Points : List (MinuteRow F) → List (MonitorMetrics F) → Type 0
  Points [] [] = Unit
  Points [] (p ∷ ps) = ⊥
  Points (m ∷ ms) [] = ⊥
  Points (m ∷ ms) (p ∷ ps) = IsUniform m × (IsPointOf m p × Points ms ps)

  abbrev points_or :
      List (MonitorMetrics F) → Result Code (List (MonitorMetrics F)) → List (MonitorMetrics F)
  points_or d (ok points) = points
  points_or d (err e) = d

  scan_float-some : (x : Option F) {v : F} → scan_float x ≡ ok v → is_some x ≡ true
  scan_float-some none h = absurd (ground arith)
  scan_float-some (some x) h = refl

  extreme_lost : (x : Option ℤ) → float_or_zero zero_f ratio (driver_value x) ≡ zero_f
  extreme_lost none = refl
  extreme_lost (some n) = refl

  scan_minute-IsPointOf :
      (m : MinuteRow F) {row : TsResultsAgg1m F}
      → scan_minute m ≡ ok row
      → IsUniform m × IsPointOf m (to_metrics zero_f ratio row)
  unfolding scan_minute to_metrics
  scan_minute-IsPointOf m {row} h =
      let (rate, (er, h1)) = bind_ok (scan_rate m.error_count m.count) _ h in
      let (p50, (e50, h2)) = bind_ok (scan_float m.p50_ms) _ h1 in
      let (p95, (e95, h3)) = bind_ok (scan_float m.p95_ms) _ h2 in
      let (p99, (e99, h4)) = bind_ok (scan_float m.p99_ms) _ h3 in
      let (avg, (eavg, h5)) = bind_ok (scan_float m.avg_ms) _ h4 in
      (
        (scan_rate-cases m.error_count m.count er, scan_float-some m.avg_ms eavg),
        subst (λ r. IsPointOf m (to_metrics zero_f ratio r)) (ap (value_or row) h5)
            (refl, refl, refl, refl, extreme_lost m.min_ms, extreme_lost m.max_ms),
      )

  scan_minutes-Points :
      (minutes : List (MinuteRow F)) {rows : List (TsResultsAgg1m F)}
      → scan_minutes minutes ≡ ok rows
      → Points minutes (map (to_metrics zero_f ratio) rows)
  unfolding scan_minutes
  scan_minutes-Points [] h =
      subst (λ rs. Points [] (map (to_metrics zero_f ratio) rs)) (ap (value_or []) h) tt
  scan_minutes-Points (m ∷ minutes) h =
      let (row, (e, h1)) = bind_ok (scan_minute m) _ h in
      let (rows, (f, h2)) = bind_ok (scan_minutes minutes) _ h1 in
      let (u, p) = scan_minute-IsPointOf m e in
      subst (λ rs. Points (m ∷ minutes) (map (to_metrics zero_f ratio) rs)) (ap (value_or []) h2)
        (u, (p, scan_minutes-Points minutes f))

  answer_Points :
      (minutes : List (MinuteRow F)) (r : Result DbError (List (TsResultsAgg1m F)))
      (selected : List (MinuteRow F)) {points : List (MonitorMetrics F)}
      → ((rows : List (TsResultsAgg1m F)) → r ≡ ok rows → scan_minutes selected ≡ ok rows)
      → metrics_of zero_f ratio minutes r ≡ ok points
      → Points selected points
  answer_Points minutes (ok rows) selected read h =
      subst (Points selected) (ap (points_or []) h) (scan_minutes-Points selected (read rows refl))
  answer_Points minutes (err e) selected read h = absurd (ground arith)

  -- An answer of GetMonitorMetrics has one point for each minute of the monitor in the period that was asked
  -- for, of which the last 24 hours are the default, newest first; in each of those minutes all checks failed
  -- or none, and some check has a time, since the scan refuses any other minute; and the minimum and
  -- the maximum of each point are 0, whatever the view has.
  pub metrics-Points :
      (minutes : List (MinuteRow F)) (user id : String) (start end : Option ℕ) (s : Database)
      {points : List (MonitorMetrics F)}
      → (get_monitor_metrics zero_f ratio minutes user id start end s).0 ≡ ok points
      → Points
          (select_minutes id (time_or (s.clock - day) start) (time_or s.clock end) minutes)
          points
  unfolding get_monitor_metrics metrics_for get_aggregated_metrics
  metrics-Points minutes user id start end s h = elim (Bool-cases (id == "")) [
    | inl e ↦ let h' = rw e at h in absurd (ground arith)
    | inr e ↦ elim (Result-cases (statement (by_user_query id user) s).0) [
      | inr (x, f) ↦ let h' = rw (e, f) at h in absurd (ground arith)
      | inl (m, f) ↦
          let (fs, found, t) = statement_ok (by_user_query id user) s f in
          let h' = rw (e, f, t) at h in
          answer_Points minutes _
            (select_minutes id (time_or (s.clock - day) start) (time_or s.clock end) minutes)
            (λ rows r.
              let (gs, read, u) =
                statement_ok
                  (metrics_query zero_f ratio minutes id (time_or (s.clock - day) start)
                    (time_or s.clock end))
                  (record s { faults = fs }) r in
              read)
            h'
    ]
  ]
