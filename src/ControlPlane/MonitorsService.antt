-- ===== src/ControlPlane/MonitorsService.antt =====
-- internal/app/control-plane/api/monitors/service.go: the monitors of a user. A handler takes the user's
-- id from the session; headers and assertions are their JSON texts, and `parses` says which texts
-- protojson reads back. Uptime and Metrics have the calls over the views.
pub mod Listing
pub mod Ownership
pub mod Reads
pub mod Warnings
pub mod Uptime
pub mod Fallback
pub mod Totals
pub mod Missing
pub mod Metrics
use openseer.Base.{
  ℕ, zero, suc, String, Bool, true, ◌&&◌, ◌||◌, Option, none, some, List, [], ◌∷◌, if◌then◌else◌,
  any, string_eq, nat_eq, ◌==◌, Result, ok, err, is_ok,
}
use openseer.Base.Int.{ℤ, pos, negsuc}
use openseer.ControlPlane.Regions.{normalize_list}
use openseer.ControlPlane.WorkerService.{Code, not_found, invalid_argument, internal}
use openseer.Store.Db.{Database, Db, statement}
use openseer.Store.Errors.{DbError, no_rows, constraint, unavailable}
use openseer.Store.Monitors.{
  AppMonitor, get_monitor_by_user, MonitorParams, create_monitor, update_monitor_by_user,
  delete_monitor_by_user,
}
use openseer.Store.Workers.{RegionHealth, list_region_health}

pub record CreateMonitorRequest : Type 0 where
  pub id : String
  pub name : String
  pub url : String
  pub interval_ms : ℤ
  pub timeout_ms : ℤ
  pub regions : List String
  pub method : String
  pub headers : Option String
  pub assertions : Option String
  pub enabled : Option Bool

pub record UpdateMonitorRequest : Type 0 where
  pub id : String
  pub name : Option String
  pub url : Option String
  pub interval_ms : Option ℤ
  pub timeout_ms : Option ℤ
  pub regions : List String
  pub method : Option String
  pub headers : Option String
  pub assertions : Option String
  pub enabled : Option Bool

-- `if x == 0 { x = d }`, which lets negative values pass.
abbrev pub nonzero_or : ℤ → ℤ → ℤ
nonzero_or (pos zero) d = d
nonzero_or (pos (suc n)) d = pos (suc n)
nonzero_or (negsuc n) d = negsuc n

abbrev pub nonempty_or : List String → List String → List String
nonempty_or [] d = d
nonempty_or (x ∷ xs) d = x ∷ xs

unfoldable pub create_params : (String → String) → String → CreateMonitorRequest → MonitorParams
create_params clean user msg = record {
  id = msg.id;
  name = msg.name;
  url = msg.url;
  interval_ms = nonzero_or msg.interval_ms (pos 60_000);
  timeout_ms = nonzero_or msg.timeout_ms (pos 5000);
  regions = normalize_list clean (nonempty_or msg.regions ("global" ∷ []));
  jitter_seed = pos 42;
  rate_limit_key = none;
  method = if msg.method == "" then "GET" else msg.method;
  headers = msg.headers;
  assertions = msg.assertions;
  enabled = some (elim msg.enabled [ none ↦ true | some b ↦ b ]);
  user_id = user;
}

-- What dbMonitorToProto reads of a JSON column.
abbrev pub reads : (String → Bool) → Option String → Bool
reads parses none = true
reads parses (some text) = text == "" || parses text

unfoldable pub db_monitor_to_proto : (String → Bool) → AppMonitor → Result Code AppMonitor
db_monitor_to_proto parses m =
    if reads parses m.headers && reads parses m.assertions then ok m else err internal

-- healthyByRegion[region]
unfoldable pub healthy_in : List RegionHealth → String → ℕ
healthy_in [] region = 0
healthy_in (row ∷ rows) region =
    if row.region == region then row.healthy_workers else healthy_in rows region

-- The loop of zeroHealthyRegions, with the set of regions seen.
unfoldable pub warn_from : List RegionHealth → List String → List String → List String
unfolding healthy_in
warn_from rows seen [] = []
warn_from rows seen (region ∷ regions) =
    let skipped = warn_from rows seen regions in
    let rest = warn_from rows (region ∷ seen) regions in
    if region == "global" || any (λ s. s == region) seen
    then skipped
    else if healthy_in rows region == 0
    then region ∷ rest
    else rest

unfoldable pub zero_healthy_regions : List RegionHealth → List String → List String
unfolding warn_from
zero_healthy_regions rows regions = warn_from rows [] regions

-- A failed query of the region health gives no warning.
abbrev pub warnings_of : List String → Result DbError (List RegionHealth) → List String
warnings_of regions (ok rows) = zero_healthy_regions rows regions
warnings_of regions (err e) = []

abbrev pub health_query : Db (List RegionHealth)
health_query s = (ok (list_region_health s.clock s.workers), s)

-- The monitor with the regions of the warning header.
abbrev pub with_warnings :
    List String
    → Result Code AppMonitor
    → Database
    → Result Code (AppMonitor × List String) × Database
with_warnings regions (err e) s = (err e, s)
with_warnings [] (ok m) s = (ok (m, []), s)
with_warnings (region ∷ regions) (ok m) s =
    let (rows, s') = statement health_query s in (ok (m, warnings_of (region ∷ regions) rows), s')

abbrev pub stored :
    (String → Bool)
    → List String
    → Result DbError AppMonitor
    → Database
    → Result Code (AppMonitor × List String) × Database
stored parses regions (err e) s = (err internal, s)
stored parses regions (ok m) s = with_warnings regions (db_monitor_to_proto parses m) s

abbrev pub create_query : MonitorParams → Db AppMonitor
create_query p s =
    let (r, monitors) = create_monitor s.clock p s.monitors in (r, record s { monitors = monitors })

unfoldable pub create_monitor_call :
    (String → String)
    → (String → Bool)
    → String
    → CreateMonitorRequest
    → Database
    → Result Code (AppMonitor × List String) × Database
unfolding create_params db_monitor_to_proto zero_healthy_regions
create_monitor_call clean parses user msg s =
    let p = create_params clean user msg in
    let (r, s') = statement (create_query p) s in
    if msg.id == "" || msg.url == ""
    then (err invalid_argument, s)
    else stored parses p.regions r s'

-- A row that is not there is not found; anything else is an internal error.
abbrev pub lookup_code : DbError → Code
lookup_code no_rows = not_found
lookup_code constraint = internal
lookup_code unavailable = internal

abbrev pub by_user_query : String → String → Db AppMonitor
by_user_query id user s = (get_monitor_by_user id user s.monitors, s)

abbrev pub found : (String → Bool) → Result DbError AppMonitor → Result Code AppMonitor
found parses (ok m) = db_monitor_to_proto parses m
found parses (err e) = err (lookup_code e)

unfoldable pub get_monitor_call :
    (String → Bool) → String → String → Database → Result Code AppMonitor × Database
get_monitor_call parses user id s =
    let (r, s') = statement (by_user_query id user) s in
    if id == "" then (err invalid_argument, s) else (found parses r, s')

abbrev pub or_old {ℓ} : {A : Type ℓ} → Option A → A → A
or_old none old = old
or_old (some new) old = new

-- `params.Headers = existing.Headers` where the message has none.
abbrev pub or_kept {ℓ} : {A : Type ℓ} → Option A → Option A → Option A
or_kept none old = old
or_kept (some new) old = some new

-- The rate limit key is not carried over.
unfoldable pub update_params :
    (String → String) → String → UpdateMonitorRequest → AppMonitor → MonitorParams
update_params clean user msg existing = record {
  id = msg.id;
  name = or_old msg.name existing.name;
  url = or_old msg.url existing.url;
  interval_ms = or_old msg.interval_ms existing.interval_ms;
  timeout_ms = or_old msg.timeout_ms existing.timeout_ms;
  regions = elim msg.regions [ [] ↦ existing.regions | x ∷ xs ↦ normalize_list clean msg.regions ];
  jitter_seed = existing.jitter_seed;
  rate_limit_key = none;
  method = or_old msg.method existing.method;
  headers = or_kept msg.headers existing.headers;
  assertions = or_kept msg.assertions existing.assertions;
  enabled = or_kept msg.enabled existing.enabled;
  user_id = user;
}

abbrev pub update_query : MonitorParams → Db AppMonitor
update_query p s =
    let (r, monitors) = update_monitor_by_user s.clock p s.monitors in
    (r, record s { monitors = monitors })

abbrev pub update_found :
    (String → String)
    → (String → Bool)
    → String
    → UpdateMonitorRequest
    → Result DbError AppMonitor
    → Database
    → Result Code (AppMonitor × List String) × Database
update_found clean parses user msg (err e) s = (err (lookup_code e), s)
update_found clean parses user msg (ok existing) s =
    let p = update_params clean user msg existing in
    let (r, s') = statement (update_query p) s in stored parses p.regions r s'

unfoldable pub update_monitor_call :
    (String → String)
    → (String → Bool)
    → String
    → UpdateMonitorRequest
    → Database
    → Result Code (AppMonitor × List String) × Database
unfolding update_params
update_monitor_call clean parses user msg s =
    let (r, s') = statement (by_user_query msg.id user) s in
    if msg.id == "" then (err invalid_argument, s) else update_found clean parses user msg r s'

abbrev pub delete_query : String → String → Db (Unit {0})
delete_query id user s =
    (ok tt, record s { monitors = delete_monitor_by_user s.clock id user s.monitors })

unfoldable pub delete_monitor_call : String → String → Database → Result Code (Unit {0}) × Database
delete_monitor_call user id s =
    let (r, s') = statement (delete_query id user) s in
    if id == "" then (err invalid_argument, s) else (if is_ok r then ok tt else err internal, s')
