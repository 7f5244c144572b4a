-- ===== src/ControlPlane/MonitorsService/Listing.antt =====
-- ListMonitors and GetMonitorResults of internal/app/control-plane/api/monitors/service.go.
use openseer.Base.{
  zero, suc, String, Bool, List, [], ◌∷◌, map, if◌then◌else◌, string_eq, nat_eq, ◌==◌, Result, ok,
  err,
}
use openseer.Base.Int.{ℤ, pos, negsuc}
use openseer.ControlPlane.Ingest.{MonitorResult, from_row}
use openseer.ControlPlane.MonitorsService.{db_monitor_to_proto, lookup_code, by_user_query}
use openseer.ControlPlane.WorkerService.{Code, invalid_argument, internal}
use openseer.Store.Db.{Database, Db, statement}
use openseer.Store.Errors.{DbError, constraint}
use openseer.Store.Monitors.{AppMonitor, list_monitors_by_user}
use openseer.Store.Results.{ResultRow, get_recent_results}

-- The loop ends at the first monitor whose JSON does not read back.
abbrev pub add_monitor :
    Result Code AppMonitor → Result Code (List AppMonitor) → Result Code (List AppMonitor)
add_monitor (err e) rest = err e
add_monitor (ok m) (err e) = err e
add_monitor (ok m) (ok monitors) = ok (m ∷ monitors)

unfoldable pub all_to_proto : (String → Bool) → List AppMonitor → Result Code (List AppMonitor)
all_to_proto parses [] = ok []
all_to_proto parses (m ∷ monitors) =
    add_monitor (db_monitor_to_proto parses m) (all_to_proto parses monitors)

abbrev pub listed_monitors :
    (String → Bool) → Result DbError (List AppMonitor) → Result Code (List AppMonitor)
listed_monitors parses (ok monitors) = all_to_proto parses monitors
listed_monitors parses (err e) = err internal

unfoldable pub list_monitors_call :
    (String → Bool) → String → Database → Result Code (List AppMonitor) × Database
list_monitors_call parses user s =
    let (r, s') = statement (λ d. (ok (list_monitors_by_user user d.monitors), d)) s in
    (listed_monitors parses r, s')

-- `if limit == 0 { limit = 100 }`; a negative LIMIT is an error of the database.
abbrev pub results_query : String → ℤ → Db (List ResultRow)
results_query id (pos zero) s = (ok (get_recent_results s.clock id 100 s.results), s)
results_query id (pos (suc n)) s = (ok (get_recent_results s.clock id (suc n) s.results), s)
results_query id (negsuc n) s = (err constraint, s)

-- The status is passed on as it is stored.
abbrev pub to_monitor_result : ResultRow → MonitorResult
to_monitor_result r = record (from_row r) { status = r.status }

abbrev pub results_of : Result DbError (List ResultRow) → Result Code (List MonitorResult)
results_of (ok rows) = ok (map to_monitor_result rows)
results_of (err e) = err internal

abbrev pub results_for :
    String → ℤ → Result DbError AppMonitor → Database → Result Code (List MonitorResult) × Database
results_for id limit (err e) s = (err (lookup_code e), s)
results_for id limit (ok m) s =
    let (rows, s') = statement (results_query id limit) s in (results_of rows, s')

unfoldable pub get_monitor_results :
    String → String → ℤ → Database → Result Code (List MonitorResult) × Database
get_monitor_results user id limit s =
    let (r, s') = statement (by_user_query id user) s in
    if id == "" then (err invalid_argument, s) else results_for id limit r s'
