-- ===== src/Tests/Monitors.antt =====
-- Concrete runs of internal/app/control-plane/api/monitors/service.go.
use openseer.Base.{
  String, ◌≡◌, refl, Bool, true, not, ◌&&◌, none, some, [], ◌∷◌, any, string_eq, nat_eq, ◌==◌, ok,
}
use openseer.ControlPlane.MonitorsService.{
  UpdateMonitorRequest, db_monitor_to_proto, zero_healthy_regions, get_monitor_call,
}
use openseer.ControlPlane.MonitorsService.Warnings.{warned_iff_unhealthy}
use openseer.Store.Db.{through, statement}
use openseer.Store.Monitors.{is_users, get_monitor_by_user}
use openseer.Store.Workers.{is_healthy, list_region_health}
use openseer.Tests.Services.{a_worker, a_monitor, a_database}

abbrev pub as_is : String → String
as_is s = s

abbrev pub readable : String → Bool
readable s = true

abbrev pub new_url : UpdateMonitorRequest
new_url = record {
  id = "m1";
  name = none;
  url = some "http://y";
  interval_ms = none;
  timeout_ms = none;
  regions = [];
  method = none;
  headers = none;
  assertions = none;
  enabled = none;
}

monitor_answered : (get_monitor_call readable "u1" "m1" a_database).0 ≡ ok a_monitor
unfolding get_monitor_call statement through get_monitor_by_user is_users db_monitor_to_proto
monitor_answered = refl

abbrev us : String
us = "us"

warned_iff_unhealthy_example :
    any
      (λ s. s == us)
      (zero_healthy_regions (list_region_health 5 (a_worker ∷ [])) ("eu" ∷ "us" ∷ []))
    ≡ (any (λ s. s == us) ("eu" ∷ "us" ∷ [])
        && not (us == "global")
        && not (any (λ w. w.region == us && is_healthy 5 w) (a_worker ∷ [])))
warned_iff_unhealthy_example = warned_iff_unhealthy 5 (a_worker ∷ []) "us" ("eu" ∷ "us" ∷ [])
