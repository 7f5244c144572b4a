-- ===== src/ControlPlane/MonitorsService/Fallback.antt =====
-- Which range GetMonitorUptime (internal/app/control-plane/api/monitors/service.go) answers from.
use openseer.Base.{
  ℕ, String, ◌≡◌, refl, sym, ap, ◌∙◌, inl, inr, List, [], ◌∷◌, arith, if◌then◌else◌, Bool-cases,
  string_eq, nat_eq, ◌==◌, Result, ok, err, Result-cases,
}
use openseer.ControlPlane.MonitorsService.Uptime.{
  data_24h_raw_query, unless_empty, fetch_uptime_24h, fetch_uptime_7d, fetch_uptime_30d, answer_of,
  uptime_in, uptime_for, get_monitor_uptime,
}
use openseer.Store.Db.{Fault, Database, Db, statement, statement_ok, value_or, reading, reading_ok}
use openseer.Store.Errors.{DbError}
use openseer.Store.Results.Uptime.{
  UptimeRow, get_uptime_data_24h, get_uptime_data_7d, get_uptime_data_30d, get_uptime_data_24h_raw,
}
use openseer.ControlPlane.WorkerService.{Code}
use openseer.Store.Monitors.{AppMonitor}
use openseer.ControlPlane.MonitorsService.{by_user_query}

-- The first that counted a check, else the last.
unfoldable pub first_counted : List UptimeRow → UptimeRow → UptimeRow
first_counted [] last = last
first_counted (row ∷ rows) last =
    let rest = first_counted rows last in if row.total_checks == 0 then rest else row

-- A claim on the row of an answer.
abbrev Answers : (UptimeRow → Type 0) → Result DbError UptimeRow → Type 0
Answers P (ok row) = P row
Answers P (err e) = Unit

abbrev code_value_or : UptimeRow → Result Code UptimeRow → UptimeRow
code_value_or d (ok a) = a
code_value_or d (err e) = d

module _ (percent : ℕ → ℕ → ℕ) (id : String) where
  abbrev pub raw_24h : Database → UptimeRow
  raw_24h s = get_uptime_data_24h_raw percent s.clock id s.results

  abbrev pub hourly_24h : Database → UptimeRow
  hourly_24h s = get_uptime_data_24h percent s.clock id s.hourly

  abbrev pub hourly_7d : Database → UptimeRow
  hourly_7d s = get_uptime_data_7d percent s.clock id s.hourly

  abbrev pub daily_30d : Database → UptimeRow
  daily_30d s = get_uptime_data_30d percent s.clock id s.daily

  -- One range, then the wider ones' substitute `next`.
  step_first :
      (f : Database → UptimeRow) (next : Db UptimeRow) (rows : List UptimeRow) (last : UptimeRow)
      (s : Database) {row : UptimeRow}
      → ((t : Database) (fs : List Fault) → f (record t { faults = fs }) ≡ f t)
      → ((fs : List Fault) (r : UptimeRow)
          → (next (record s { faults = fs })).0 ≡ ok r
          → r ≡ first_counted rows last)
      → (unless_empty percent next (statement (reading f) s).0 (statement (reading f) s).1).0
        ≡ ok row
      → row ≡ first_counted (f s ∷ rows) last
  unfolding first_counted
  step_first f next rows last s {row} same later h =
      elim (Result-cases (statement (reading f) s).0) [
        | inl (a, e) ↦
            let (read, (fs, t)) = reading_ok f same s e in
            elim (Bool-cases (a.total_checks == 0)) [
              | inl z ↦ later fs row (rw (e, z, t) at h) ∙ rw (read, z) refl
              | inr z ↦
                  let answer : ok a ≡ ok row = rw (e, z) at h in
                  rw (read, z) (sym (ap (value_or a) answer))
            ]
        | inr (d, e) ↦ let h' = rw e at h in absurd (ground arith)
      ]

  first_24h :
      (s : Database) (row : UptimeRow)
      → (fetch_uptime_24h percent id s).0 ≡ ok row
      → row ≡ first_counted (hourly_24h s ∷ []) (raw_24h s)
  unfolding fetch_uptime_24h first_counted get_uptime_data_24h_raw
  first_24h s row h =
      step_first hourly_24h (statement (data_24h_raw_query percent id)) [] (raw_24h s) s
        (λ t fs. refl)
        (λ fs r e. sym (reading_ok raw_24h (λ t gs. refl) (record s { faults = fs }) e).0) h

  first_7d :
      (s : Database) (row : UptimeRow)
      → (fetch_uptime_7d percent id s).0 ≡ ok row
      → row ≡ first_counted (hourly_7d s ∷ hourly_24h s ∷ []) (raw_24h s)
  unfolding fetch_uptime_7d
  first_7d s row h =
      step_first hourly_7d (fetch_uptime_24h percent id) (hourly_24h s ∷ []) (raw_24h s) s
        (λ t fs. refl) (λ fs r e. first_24h (record s { faults = fs }) r e) h

  first_30d :
      (s : Database) (row : UptimeRow)
      → (fetch_uptime_30d percent id s).0 ≡ ok row
      → row ≡ first_counted (daily_30d s ∷ hourly_7d s ∷ hourly_24h s ∷ []) (raw_24h s)
  unfolding fetch_uptime_30d
  first_30d s row h =
      step_first daily_30d (fetch_uptime_7d percent id) (hourly_7d s ∷ hourly_24h s ∷ [])
        (raw_24h s) s (λ t fs. refl) (λ fs r e. first_7d (record s { faults = fs }) r e) h

  -- The ranges that a request falls back through, widest first, before the raw results.
  unfoldable pub ranges_of : String → Database → List UptimeRow
  ranges_of range s =
      if range == "24h"
      then hourly_24h s ∷ []
      else if range == "7d"
      then hourly_7d s ∷ hourly_24h s ∷ []
      else if range == "30d"
      then daily_30d s ∷ hourly_7d s ∷ hourly_24h s ∷ []
      else []

  answer_ok :
      (fetch : Db UptimeRow) (s : Database) {row : UptimeRow}
      → (answer_of percent fetch s).0 ≡ ok row
      → (fetch s).0 ≡ ok row
  answer_ok fetch s {row} h = elim (Result-cases (fetch s).0) [
    | inl (a, e) ↦ let answer : ok a ≡ ok row = rw e at h in e ∙ ap ok (ap (code_value_or a) answer)
    | inr (d, e) ↦ let h' = rw e at h in absurd (ground arith)
  ]

  in_range :
      (range : String) (s : Database) {row : UptimeRow}
      → (uptime_in percent range id s).0 ≡ ok row
      → row ≡ first_counted (ranges_of range s) (raw_24h s)
  unfolding ranges_of
  in_range range s {row} h = elim (Bool-cases (range == "24h")) [
    | inl a ↦ rw a (first_24h s row (answer_ok (fetch_uptime_24h percent id) s (rw a at h)))
    | inr a ↦ elim (Bool-cases (range == "7d")) [
      | inl b ↦
          rw (a, b) (first_7d s row (answer_ok (fetch_uptime_7d percent id) s (rw (a, b) at h)))
      | inr b ↦ elim (Bool-cases (range == "30d")) [
        | inl c ↦
            rw (a, b, c)
              (first_30d s row (answer_ok (fetch_uptime_30d percent id) s (rw (a, b, c) at h)))
        | inr c ↦ let h' = rw (a, b, c) at h in absurd (ground arith)
      ]
    ]
  ]

  for_monitor :
      (range : String) (r : Result DbError AppMonitor) (s : Database) {row : UptimeRow}
      → (uptime_for percent range id r s).0 ≡ ok row
      → row ≡ first_counted (ranges_of range s) (raw_24h s)
  for_monitor range (ok m) s h = in_range range s h
  for_monitor range (err e) s h = absurd (ground arith)

  -- When GetMonitorUptime answers, whatever became of its statements, it answers with the row of the
  -- first range, from the one asked for down to 24 hours, in which the views counted a check, and
  -- with the row of the raw results when none did.
  pub uptime_first_counted :
      (user range : String) (s : Database) {row : UptimeRow}
      → (get_monitor_uptime percent user id range s).0 ≡ ok row
      → row ≡ first_counted (ranges_of range s) (raw_24h s)
  unfolding get_monitor_uptime ranges_of
  uptime_first_counted user range s {row} h =
      elim (Result-cases (statement (by_user_query id user) s).0) [
        | inl (m, e) ↦
            let (fs, answer, t) = statement_ok (by_user_query id user) s e in
            for_monitor range (ok m) (record s { faults = fs }) (rw (e, t) at h)
        | inr (d, e) ↦ let h' = rw e at h in absurd (ground arith)
      ]
