-- ===== src/ControlPlane/MonitorsService/Uptime.antt =====
-- GetMonitorUptime and GetMonitorUptimeTimeline of internal/app/control-plane/api/monitors/service.go.
-- `percent` and `as_int` stand for the database's arithmetic, as in the queries.
use openseer.Base.{
  ℕ, String, Option, List, [], ◌∷◌, if◌then◌else◌, string_eq, nat_eq, ◌==◌, Result, ok, err,
}
use openseer.ControlPlane.MonitorsService.{lookup_code, by_user_query}
use openseer.ControlPlane.WorkerService.{Code, invalid_argument, internal}
use openseer.Store.Db.{Database, Db, statement}
use openseer.Store.Errors.{DbError}
use openseer.Store.Monitors.{AppMonitor}
use openseer.Store.Results.Uptime.{
  UptimeRow, TimelineRow, get_uptime_data_24h, get_uptime_data_7d, get_uptime_data_30d,
  get_uptime_data_24h_raw, get_uptime_timeline_24h, get_uptime_timeline_7d, get_uptime_timeline_30d,
}

module _ (percent : ℕ → ℕ → ℕ) where
  abbrev pub data_24h_query : String → Db UptimeRow
  data_24h_query id s = (ok (get_uptime_data_24h percent s.clock id s.hourly), s)

  abbrev pub data_24h_raw_query : String → Db UptimeRow
  data_24h_raw_query id s = (ok (get_uptime_data_24h_raw percent s.clock id s.results), s)

  abbrev pub data_7d_query : String → Db UptimeRow
  data_7d_query id s = (ok (get_uptime_data_7d percent s.clock id s.hourly), s)

  abbrev pub data_30d_query : String → Db UptimeRow
  data_30d_query id s = (ok (get_uptime_data_30d percent s.clock id s.daily), s)

  -- `if data.TotalChecks.(int64) == 0`, the wider range is left for the next one.
  abbrev pub unless_empty : Db UptimeRow → Result DbError UptimeRow → Db UptimeRow
  unless_empty next (err e) s = (err e, s)
  unless_empty next (ok row) s = if row.total_checks == 0 then next s else (ok row, s)

  unfoldable pub fetch_uptime_24h : String → Db UptimeRow
  fetch_uptime_24h id s =
      let (r, s') = statement (data_24h_query id) s in
      unless_empty (statement (data_24h_raw_query id)) r s'

  unfoldable pub fetch_uptime_7d : String → Db UptimeRow
  unfolding fetch_uptime_24h
  fetch_uptime_7d id s =
      let (r, s') = statement (data_7d_query id) s in unless_empty (fetch_uptime_24h id) r s'

  unfoldable pub fetch_uptime_30d : String → Db UptimeRow
  unfolding fetch_uptime_7d
  fetch_uptime_30d id s =
      let (r, s') = statement (data_30d_query id) s in unless_empty (fetch_uptime_7d id) r s'

  abbrev pub uptime_answer : Result DbError UptimeRow → Result Code UptimeRow
  uptime_answer (ok row) = ok row
  uptime_answer (err e) = err internal

  abbrev pub answer_of : Db UptimeRow → Database → Result Code UptimeRow × Database
  answer_of fetch s = let (r, s') = fetch s in (uptime_answer r, s')

  abbrev pub uptime_in : String → String → Database → Result Code UptimeRow × Database
  uptime_in range id s =
      if range == "24h"
      then answer_of (fetch_uptime_24h id) s
      else if range == "7d"
      then answer_of (fetch_uptime_7d id) s
      else if range == "30d"
      then answer_of (fetch_uptime_30d id) s
      else (err invalid_argument, s)

  abbrev pub uptime_for :
      String → String → Result DbError AppMonitor → Database → Result Code UptimeRow × Database
  uptime_for range id (err e) s = (err (lookup_code e), s)
  uptime_for range id (ok m) s = uptime_in range id s

  unfoldable pub get_monitor_uptime :
      String → String → String → Database → Result Code UptimeRow × Database
  unfolding fetch_uptime_30d
  get_monitor_uptime user id range s =
      let (r, s') = statement (by_user_query id user) s in uptime_for range id r s'

  abbrev pub timeline_24h_query : String → Db (List TimelineRow)
  timeline_24h_query id s = (ok (get_uptime_timeline_24h percent s.clock id s.results), s)

  abbrev pub timeline_7d_query : String → Db (List TimelineRow)
  timeline_7d_query id s = (ok (get_uptime_timeline_7d percent s.clock id s.hourly), s)

  abbrev pub timeline_30d_query : (ℕ → ℕ → Option ℕ) → String → Db (List TimelineRow)
  timeline_30d_query as_int id s = (get_uptime_timeline_30d as_int s.clock id s.daily, s)

  -- No rows in 7 days: those of 24 hours.
  abbrev pub unless_no_rows :
      Db (List TimelineRow) → Result DbError (List TimelineRow) → Db (List TimelineRow)
  unless_no_rows next (err e) s = (err e, s)
  unless_no_rows next (ok []) s = next s
  unless_no_rows next (ok (row ∷ rows)) s = (ok (row ∷ rows), s)

  -- No rows in 30 days: those of 7 days, and those of 24 hours when that fails or has none.
  abbrev pub rows_7d_or :
      Db (List TimelineRow) → Result DbError (List TimelineRow) → Db (List TimelineRow)
  rows_7d_or next (err e) s = next s
  rows_7d_or next (ok []) s = next s
  rows_7d_or next (ok (row ∷ rows)) s = (ok (row ∷ rows), s)

  unfoldable pub fetch_timeline_7d : String → Db (List TimelineRow)
  fetch_timeline_7d id s =
      let (r, s') = statement (timeline_7d_query id) s in
      unless_no_rows (statement (timeline_24h_query id)) r s'

  abbrev pub timeline_7d_or_24h : String → Db (List TimelineRow)
  timeline_7d_or_24h id s =
      let (r, s') = statement (timeline_7d_query id) s in
      rows_7d_or (statement (timeline_24h_query id)) r s'

  unfoldable pub fetch_timeline_30d : (ℕ → ℕ → Option ℕ) → String → Db (List TimelineRow)
  fetch_timeline_30d as_int id s =
      let (r, s') = statement (timeline_30d_query as_int id) s in
      unless_no_rows (timeline_7d_or_24h id) r s'

  abbrev pub timeline_answer : Result DbError (List TimelineRow) → Result Code (List TimelineRow)
  timeline_answer (ok rows) = ok rows
  timeline_answer (err e) = err internal

  abbrev pub points_of :
      Db (List TimelineRow) → Database → Result Code (List TimelineRow) × Database
  points_of fetch s = let (r, s') = fetch s in (timeline_answer r, s')

  abbrev pub timeline_in :
      (ℕ → ℕ → Option ℕ) → String → String → Database → Result Code (List TimelineRow) × Database
  timeline_in as_int range id s =
      if range == "24h"
      then points_of (statement (timeline_24h_query id)) s
      else if range == "7d"
      then points_of (fetch_timeline_7d id) s
      else if range == "30d"
      then points_of (fetch_timeline_30d as_int id) s
      else (err invalid_argument, s)

  abbrev pub timeline_for :
      (ℕ → ℕ → Option ℕ)
      → String
      → String
      → Result DbError AppMonitor
      → Database
      → Result Code (List TimelineRow) × Database
  timeline_for as_int range id (err e) s = (err (lookup_code e), s)
  timeline_for as_int range id (ok m) s = timeline_in as_int range id s

  unfoldable pub get_monitor_uptime_timeline :
      (ℕ → ℕ → Option ℕ)
      → String
      → String
      → String
      → Database
      → Result Code (List TimelineRow) × Database
  unfolding fetch_timeline_7d fetch_timeline_30d
  get_monitor_uptime_timeline as_int user id range s =
      let (r, s') = statement (by_user_query id user) s in timeline_for as_int range id r s'
