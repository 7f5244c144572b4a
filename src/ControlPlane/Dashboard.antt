-- ===== src/ControlPlane/Dashboard.antt =====
-- internal/app/control-plane/api/dashboard/service.go, and the profile of api/user/service.go.
pub mod Latest
pub mod Counts
pub mod Answer
use openseer.Base.{
  ℕ, ◌+◌, ◌-◌, String, Bool, false, not, ◌&&◌, Option, none, some, List, [], ◌∷◌, ◌++◌, leb,
  if◌then◌else◌, length, string_eq, nat_eq, ◌==◌, Result, ok, err,
}
use openseer.Base.Dict.{lookup, insert}
use openseer.Base.Int.{ℤ, pos, negsuc}
use openseer.ControlPlane.Ingest.{nonempty_only}
use openseer.ControlPlane.Session.{Handler, for_user}
use openseer.ControlPlane.WorkerService.{Code, unauthenticated, internal}
use openseer.Store.Db.{Database, Db, statement}
use openseer.Store.Errors.{DbError}
use openseer.Store.Monitors.{AppMonitor, is_true, owned_by, list_monitors_by_user}
use openseer.Store.Results.{ResultRow, get_latest_result_per_monitor}
use openseer.Store.Sessions.{User}
use openseer.Store.Workers.{RegionHealth, list_region_health}

pub record MonitorStatus : Type 0 where
  pub monitor_id : String
  pub url : String
  pub status : String
  pub last_failure : Option ℕ

-- The fields that the handler sets from data; the run counts of 24 hours and the success rate are 0 and
-- the slowest monitors are none.
pub record DashboardOverview : Type 0 where
  pub total_monitors : ℤ
  pub enabled_monitors : ℤ
  pub disabled_monitors : ℤ
  pub healthy_monitors : ℤ
  pub unhealthy_monitors : ℤ
  pub recent_failures : List MonitorStatus

-- resultMap[result.MonitorID] = result, in the order of the rows.
unfoldable pub result_map : List ResultRow → List (String × ResultRow) → List (String × ResultRow)
result_map [] acc = acc
result_map (r ∷ rows) acc = result_map rows (insert r.monitor_id r acc)

abbrev pub monitor_status : AppMonitor → Option ResultRow → MonitorStatus
monitor_status m none = record {
  monitor_id = m.id;
  url = m.url;
  status = "UNKNOWN";
  last_failure = none;
}
monitor_status m (some r) = record {
  monitor_id = m.id;
  url = m.url;
  status = r.status;
  last_failure = some r.event_at;
}

-- `result.Status != "OK"`, where there is a result.
abbrev pub is_failure : Option ResultRow → Bool
is_failure none = false
is_failure (some r) = not (r.status == "OK")

-- activeChecks, failingChecks and checkStatuses.
pub record Tally : Type 0 where
  pub active : ℕ
  pub failing : ℕ
  pub statuses : List MonitorStatus

-- One round of the loop over the monitors.
unfoldable pub count_check : List (String × ResultRow) → String → AppMonitor → Tally → Tally
count_check results user m t =
    if owned_by user m.user_id
    then record {
      active = if is_true m.enabled then t.active + 1 else t.active;
      failing =
          if is_failure (lookup m.id results) && is_true m.enabled
          then t.failing + 1
          else t.failing;
      statuses = t.statuses ++ monitor_status m (lookup m.id results) ∷ [];
    }
    else t

unfoldable pub count_checks : List (String × ResultRow) → String → List AppMonitor → Tally → Tally
unfolding count_check
count_checks results user [] t = t
count_checks results user (m ∷ monitors) t =
    count_checks results user monitors (count_check results user m t)

-- int64(a - b) of two counts.
abbrev pub difference : ℕ → ℕ → ℤ
difference a b = if leb b a then pos (a - b) else negsuc (b - a - 1)

unfoldable pub overview_of : List AppMonitor → List ResultRow → String → DashboardOverview
unfolding result_map count_checks
overview_of checks latest user =
    let t =
      count_checks (result_map latest []) user checks
        (record { active = 0; failing = 0; statuses = [] }) in
    record {
      total_monitors = pos (length checks);
      enabled_monitors = pos t.active;
      disabled_monitors = difference (length checks) t.active;
      healthy_monitors = difference t.active t.failing;
      unhealthy_monitors = pos t.failing;
      recent_failures = t.statuses;
    }

abbrev pub checks_query : String → Db (List AppMonitor)
checks_query user s = (ok (list_monitors_by_user user s.monitors), s)

abbrev pub latest_query : Db (List ResultRow)
latest_query s = (ok (get_latest_result_per_monitor s.clock s.results), s)

abbrev pub with_latest :
    String → List AppMonitor → Result DbError (List ResultRow) → Result Code DashboardOverview
with_latest user checks (err e) = err internal
with_latest user checks (ok latest) = ok (overview_of checks latest user)

abbrev pub with_checks :
    String → Result DbError (List AppMonitor) → Database → Result Code DashboardOverview × Database
with_checks user (err e) s = (err internal, s)
with_checks user (ok checks) s =
    let (latest, s') = statement latest_query s in (with_latest user checks latest, s')

unfoldable pub overview_for : String → Database → Result Code DashboardOverview × Database
unfolding overview_of
overview_for user s =
    let (checks, s') = statement (checks_query user) s in with_checks user checks s'

unfoldable pub get_dashboard_overview : Handler (Result Code DashboardOverview)
unfolding overview_for for_user
get_dashboard_overview = for_user overview_for

abbrev pub or_internal : Result DbError (List RegionHealth) → Result Code (List RegionHealth)
or_internal (ok rows) = ok rows
or_internal (err e) = err internal

-- Each row becomes the message's region and number of healthy workers.
unfoldable pub get_region_health : Handler (Result Code (List RegionHealth))
unfolding for_user
get_region_health = for_user (λ user s.
    let (rows, s') = statement (λ d. (ok (list_region_health d.clock d.workers), d)) s in
    (or_internal rows, s'))

pub record UserProfile : Type 0 where
  pub id : String
  pub email : String
  pub name : String
  pub created_at : ℕ
  pub updated_at : ℕ
  pub image : Option String

unfoldable pub get_user_profile : Option User → Result Code UserProfile
get_user_profile none = err unauthenticated
get_user_profile (some u) = ok (record {
  id = u.id;
  email = u.email;
  name = u.name;
  created_at = u.created_at;
  updated_at = u.updated_at;
  image = nonempty_only u.image;
})
