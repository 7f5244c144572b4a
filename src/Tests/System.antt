-- ===== src/Tests/System.antt =====
-- Concrete runs of the control plane as a whole and of its calls' errors (internal/app/control-plane).
use openseer.Base.{
  ℕ, String, ◌≡◌, refl, Bool, true, false, not, Option, some, [], ◌∷◌, filter, ok, err,
}
use openseer.Base.Int.{pos}
use openseer.ControlPlane.MonitorsService.{get_monitor_call, update_monitor_call}
use openseer.ControlPlane.MonitorsService.Listing.{get_monitor_results}
use openseer.ControlPlane.MonitorsService.Missing.{is_not_found, IsAbsent, not_found-IsAbsent}
use openseer.ControlPlane.MonitorsService.Uptime.{get_monitor_uptime, get_monitor_uptime_timeline}
use openseer.ControlPlane.System.{SystemCall, of_worker}
use openseer.ControlPlane.WorkerService.{internal, State}
use openseer.Store.Db.{served, refused, lost, through, statement}
use openseer.Store.Monitors.{
  AppMonitor, is_users, get_monitor_by_user, list_monitors_by_user, list_due_monitors,
  delete_monitor_by_user,
}
use openseer.Store.Monitors.Deleted.{is_target, IsUnseen, deleted-IsUnseen}
use openseer.Store.Monitors.Queries.{
  count_active_monitors_by_id, get_monitor, list_all_monitors, list_enabled_monitors,
  list_enabled_monitors_by_user,
}
use openseer.Tests.Jobs.{nobody}
use openseer.Tests.Monitors.{as_is, readable, new_url}
use openseer.Tests.Services.{a_monitor, a_database, a_state}
use openseer.Store.Errors.{no_rows}
use openseer.ControlPlane.WorkerService.Calls.{ask_jobs}

-- The lease of the poll takes effect, and its answer is lost.
abbrev lossy_state : State
lossy_state = record a_state { db = record a_database { faults = served ∷ served ∷ lost ∷ [] } }

abbrev a_poll : SystemCall
a_poll = of_worker (ask_jobs nobody (pos 2)) (some "w1")

abbrev alphabetical : String → String → Bool
alphabetical a b = false

deleted-IsUnseen_example :
    let after = delete_monitor_by_user 9 "m1" "u1" (a_monitor ∷ []) in
    (get_monitor_by_user "m1" "u1" after ≡ err no_rows)
    × ((m : AppMonitor) → get_monitor "m1" after ≡ ok m → is_target "m1" "u1" m ≡ false)
    × (count_active_monitors_by_id "m1" after
        ≡ count_active_monitors_by_id "m1" (filter (λ m. not (is_target "m1" "u1" m)) after))
    × IsUnseen "m1" "u1" (list_monitors_by_user "u1" after)
    × IsUnseen "m1" "u1" (list_enabled_monitors_by_user "u1" after)
    × IsUnseen "m1" "u1" (list_enabled_monitors alphabetical after)
    × IsUnseen "m1" "u1" (list_all_monitors alphabetical after)
    × IsUnseen "m1" "u1" (list_due_monitors 20 nobody after)
deleted-IsUnseen_example = deleted-IsUnseen 9 "m1" "u1" alphabetical 20 nobody (a_monitor ∷ [])

abbrev hundred : ℕ → ℕ → ℕ
hundred s t = 100

abbrev whole : ℕ → ℕ → Option ℕ
whole s t = some 100

not_found-IsAbsent_example :
    (is_not_found (get_monitor_call readable "u2" "m1" a_database).0 ≡ true
      → IsAbsent "u2" "m1" a_database)
    × (is_not_found
            (update_monitor_call as_is readable "u2" (record new_url { id = "m1" }) a_database).0
          ≡ true
        → IsAbsent "u2" "m1" a_database)
    × (is_not_found (get_monitor_results "u2" "m1" (pos 5) a_database).0 ≡ true
        → IsAbsent "u2" "m1" a_database)
    × (is_not_found (get_monitor_uptime hundred "u2" "m1" "7d" a_database).0 ≡ true
        → IsAbsent "u2" "m1" a_database)
    × (is_not_found (get_monitor_uptime_timeline hundred whole "u2" "m1" "7d" a_database).0 ≡ true
        → IsAbsent "u2" "m1" a_database)
not_found-IsAbsent_example =
    not_found-IsAbsent "u2" "m1" hundred as_is readable whole new_url (pos 5) "7d" a_database

-- Another user's monitor is not found; with the first statement refused the error is another one.
missing_for_other : is_not_found (get_monitor_call readable "u2" "m1" a_database).0 ≡ true
unfolding get_monitor_call statement through get_monitor_by_user is_users
missing_for_other = refl

refused_is_internal :
    (get_monitor_call readable "u2" "m1" (record a_database { faults = refused ∷ [] })).0
    ≡ err internal
unfolding get_monitor_call statement through
refused_is_internal = refl
