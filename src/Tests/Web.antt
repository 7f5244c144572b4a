-- ===== src/Tests/Web.antt =====
-- Concrete runs of the session middleware and the dashboard (internal/app/control-plane).
use openseer.Base.{String, ◌≡◌, refl, ◌⊎◌, Option, none, some, List, [], ◌∷◌, ok, err}
use openseer.Base.Dict.{lookup, insert}
use openseer.Base.Int.{pos}
use openseer.Base.Sort.{insert_sorted, sort}
use openseer.ControlPlane.Dashboard.{
  DashboardOverview, result_map, count_check, count_checks, overview_of, overview_for,
  get_dashboard_overview,
}
use openseer.ControlPlane.Dashboard.Answer.{overview_counted}
use openseer.ControlPlane.Dashboard.Counts.{Counts}
use openseer.ControlPlane.MonitorsService.Ownership.{delete_call}
use openseer.ControlPlane.Session.{
  Request, split_once, extract_session_from_headers, available_cookies, cookie_value, first_value,
  extract_session_from_cookies, extract_session_token, no_secret, bad_signature, check_parts,
  verify_session, user_of, with_session,
}
use openseer.ControlPlane.Session.Requests.{owned, monitor_handler, requests_keep_owned}
use openseer.ControlPlane.Session.Sound.{IsSigned, IsKnown, session_passes}
use openseer.Store.Db.{Fault, through, statement}
use openseer.Store.Monitors.{list_monitors_by_user}
use openseer.Store.Results.{distinct_on, get_latest_result_per_monitor}
use openseer.Store.Sessions.{User, Session, find_session}
use openseer.Tests.Monitors.{as_is, readable}
use openseer.Tests.Services.{a_user, a_database}

abbrev signed : String → String → String
signed secret id = "mac"

abbrev no_escape : String → Option String
no_escape s = none

abbrev from_header : Request
from_header = record { authorization = "Bearer t1.mac"; cookies = [] }

-- The quotes of a cookie's value are dropped.
abbrev from_cookie : Request
from_cookie = record {
  authorization = "";
  cookies =
      some (record { name = "theme"; value = "dark" })
      ∷ none
      ∷ some (record { name = "openseer.session_token"; value = "\"t1.mac\"" })
      ∷ [];
}

token_of_header : extract_session_token as_is no_escape from_header ≡ "t1.mac"
unfolding extract_session_token extract_session_from_headers split_once
token_of_header = refl

token_of_cookie : extract_session_token as_is no_escape from_cookie ≡ "t1.mac"
unfolding extract_session_token extract_session_from_headers extract_session_from_cookies
    available_cookies first_value cookie_value lookup insert
token_of_cookie = refl

known_user : user_of (verify_session signed "key" "t1.mac" a_database).0 ≡ some a_user
unfolding verify_session check_parts split_once statement through find_session
known_user = refl

forged : (verify_session signed "key" "t1.mad" a_database).0 ≡ err bad_signature
unfolding verify_session check_parts split_once
forged = refl

unset : (verify_session signed "" "t1.mac" a_database).0 ≡ err no_secret
unfolding verify_session check_parts split_once
unset = refl

session_passes_example :
    (user : Option User) × (fs : List Fault) × (with_session signed "key" as_is no_escape
        get_dashboard_overview from_header a_database
      ≡ get_dashboard_overview user (record a_database { faults = fs }))
    × IsKnown signed "key" (extract_session_token as_is no_escape from_header) a_database user
session_passes_example =
    session_passes signed "key" as_is no_escape get_dashboard_overview from_header a_database

requests_keep_owned_example :
    (owned "u2"
        (with_session signed "key" as_is no_escape
          (monitor_handler as_is readable (delete_call "m1"))
          from_header
          a_database).1.monitors
      ≡ owned "u2" a_database.monitors)
    ⊎ ((x : Session) × (x.user.id ≡ "u2")
        × IsSigned signed "key" (extract_session_token as_is no_escape from_header) a_database x)
requests_keep_owned_example =
    requests_keep_owned as_is readable signed "key" as_is no_escape (delete_call "m1") from_header
      a_database "u2"

abbrev an_overview : DashboardOverview
an_overview = record {
  total_monitors = pos 1;
  enabled_monitors = pos 1;
  disabled_monitors = pos 0;
  healthy_monitors = pos 1;
  unhealthy_monitors = pos 0;
  recent_failures =
      record { monitor_id = "m1"; url = "http://x"; status = "UNKNOWN"; last_failure = none } ∷ [];
}

overview_answered : (get_dashboard_overview (some a_user) a_database).0 ≡ ok an_overview
unfolding get_dashboard_overview overview_for overview_of count_checks count_check result_map
    statement through list_monitors_by_user get_latest_result_per_monitor distinct_on sort
    insert_sorted lookup
overview_answered = refl

overview_counted_example :
    Counts a_database.clock "u1" a_database.monitors a_database.results an_overview
overview_counted_example = overview_counted a_user a_database overview_answered
