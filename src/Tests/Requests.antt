-- ===== src/Tests/Requests.antt =====
-- Concrete requests of workers and a whole iteration of the scheduler (internal/app/control-plane).
use openseer.Base.{
  ◌+◌, String, ◌≡◌, refl, ◌⊎◌, true, some, List, [], ◌∷◌, map, if◌then◌else◌, All, any, string_eq,
  nat_eq, ◌==◌, ok, is_ok,
}
use openseer.Base.Int.{pos}
use openseer.ControlPlane.Enrollment.{revoke_found, revoke_enrollment}
use openseer.ControlPlane.Enrollment.Barred.{WorkerRequest, serve_all, revoked_takes_nothing}
use openseer.ControlPlane.Scheduler.{
  schedule_regions, Tables, schedule_monitor_tx, schedule_all, look_ahead, schedule_iteration,
}
use openseer.ControlPlane.Scheduler.Iteration.{IsScheduled, iteration_schedules}
use openseer.ControlPlane.Token.{
  validate_token_format, parse_bearer_token, Access, authenticate_worker_token,
  token_auth_handler_with_cache,
}
use openseer.ControlPlane.Token.Requests.{TookNothing}
use openseer.ControlPlane.WorkerService.{State, touch_worker_heartbeat, get_jobs}
use openseer.ControlPlane.WorkerService.Calls.{ask_jobs, worker_call}
use openseer.ControlPlane.WorkerService.Served.{asked, Exhausts, get_jobs-Exhausts}
use openseer.Store.Db.{through, statement}
use openseer.Store.Jobs.{
  AppJob, held_by, update_one, clashes, create_job, in_window, create_job_idempotent, can_lease,
  before, pick, lease_jobs_with_fallback,
}
use openseer.Store.Monitors.{is_due, list_due_monitors, update_monitor_scheduling_time}
use openseer.Store.Workers.{
  AppWorker, get_worker_by_id, has_token, get_worker_by_token_hash, set_worker_token, revoke_worker,
  update_worker_heartbeat,
}
use openseer.Tests.Jobs.{three_jobs, three_jobs-Distinct, now, nobody}
use openseer.Tests.Services.{
  a_worker, a_monitor, a_database, a_state, a_cache-IsSound, an_access, a_run_id,
}
use openseer.Base.Dict.{lookup, insert, delete}
use openseer.Base.Sort.{insert_sorted, sort}
use openseer.ControlPlane.AuthCache.{
  new_worker_auth_cache, drop_hash, remove_token, get, prune_expired, shrink, evict, unlink, put,
  set, remove_tokens, invalidate_worker,
}
use openseer.ControlPlane.AuthCache.History.{apply_op, run}
use openseer.ControlPlane.Heartbeats.{update_every, should_update}
use openseer.Store.Dispatch.{join_monitors, lease_jobs_with_monitor_data}
use openseer.ControlPlane.Scheduler.Pace.{IsPaced, iteration_paces}
use openseer.ControlPlane.Scheduler.Timing.{apply_jitter, calculate_dedup_window}

abbrev header_of_w1 : String
header_of_w1 = "Bearer ostk_0000000000000000000000000000000000000000000000000000000000000000"

abbrev header_of_w2 : String
header_of_w2 = "Bearer ostk_1111111111111111111111111111111111111111111111111111111111111111"

abbrev a_hash : String → String
a_hash token =
    if token == "ostk_0000000000000000000000000000000000000000000000000000000000000000"
    then "h1"
    else "h2"

abbrev other_worker : AppWorker
other_worker = record a_worker { id = "w2"; token_hash = some "h2" }

abbrev two_workers : Access
two_workers = record an_access {
  db = record a_database { workers = a_worker ∷ other_worker ∷ []; faults = [] };
}

w1_revoked_now : is_ok (revoke_enrollment "w1" "stolen" two_workers).0 ≡ true
unfolding revoke_enrollment revoke_found statement through get_worker_by_id revoke_worker
    set_worker_token
w1_revoked_now = refl

-- Both workers ask for jobs.
abbrev two_requests : List WorkerRequest
two_requests =
    record { header = header_of_w1; call = ask_jobs nobody (pos 2); at = now; faults = [] }
    ∷ record { header = header_of_w2; call = ask_jobs nobody (pos 2); at = now; faults = [] }
    ∷ []

abbrev after_requests : List AppJob
after_requests =
    (serve_all a_hash (λ t. true) two_requests
      (a_state.service, (revoke_enrollment "w1" "stolen" two_workers).1)).1.db.jobs

revoked_takes_nothing_example :
    TookNothing "w1" (revoke_enrollment "w1" "stolen" two_workers).1.db.jobs after_requests
revoked_takes_nothing_example =
    revoked_takes_nothing a_hash (λ t. true) "w1" "stolen" two_workers two_requests a_state.service
      a_cache-IsSound w1_revoked_now

abbrev served_state : State
served_state = record a_state { db = record a_database { faults = [] } }

w1_known : get_worker_by_id "w1" (a_worker ∷ []) ≡ ok a_worker
unfolding get_worker_by_id
w1_known = refl

get_jobs-Exhausts_example :
    Exhausts nobody
      (asked "w1" "eu" now
        (pos 2)
        (touch_worker_heartbeat "w1" served_state).service.lease_duration)
      now
      (a_monitor ∷ [])
      three_jobs
      (get_jobs nobody (pos 2) (some "w1") served_state).0
      (get_jobs nobody (pos 2) (some "w1") served_state).1.db.jobs
get_jobs-Exhausts_example =
    get_jobs-Exhausts nobody (pos 2) "w1" served_state refl three_jobs-Distinct w1_known

abbrev two_tables : Tables
two_tables = record { jobs = three_jobs; monitors = a_monitor ∷ [] }

iteration_schedules_example :
    (schedule_iteration a_run_id (λ id seed. 6) now nobody two_tables ≡ two_tables)
    ⊎ All
        (IsScheduled a_run_id
          (λ id seed. 6)
          now
          (schedule_iteration a_run_id (λ id seed. 6) now nobody two_tables).jobs)
        (list_due_monitors (now + look_ahead) nobody (a_monitor ∷ []))
iteration_schedules_example = iteration_schedules a_run_id (λ id seed. 6) now nobody two_tables

-- The other worker is served after the revocation.
w2_served : any (λ j. held_by "w2" j.worker_id) after_requests ≡ true
unfolding revoke_enrollment revoke_found statement through get_worker_by_id revoke_worker
    set_worker_token serve_all token_auth_handler_with_cache authenticate_worker_token
    parse_bearer_token validate_token_format get_worker_by_token_hash has_token worker_call get_jobs
    touch_worker_heartbeat update_worker_heartbeat should_update update_every
    lease_jobs_with_monitor_data lease_jobs_with_fallback pick can_lease before sort insert_sorted
    join_monitors get set put evict shrink prune_expired unlink invalidate_worker remove_tokens
    remove_token drop_hash lookup insert delete run apply_op new_worker_auth_cache
w2_served = refl

iteration_paces_example :
    (schedule_iteration a_run_id (λ id seed. 6) now nobody two_tables ≡ two_tables)
    ⊎ All
        (λ m.
          All
            (λ x.
              x.id ≡ m.id
              → IsPaced a_run_id
                  (λ id seed. 6)
                  now
                  (list_due_monitors (now + look_ahead) nobody (a_monitor ∷ []))
                  x)
            (schedule_iteration a_run_id (λ id seed. 6) now nobody two_tables).monitors)
        (list_due_monitors (now + look_ahead) nobody (a_monitor ∷ []))
iteration_paces_example = iteration_paces a_run_id (λ id seed. 6) now nobody two_tables

-- The monitor is due; its jobs are created and it is due again a minute later, six nanoseconds more.
monitor_moved :
    map
      (λ m. m.next_due_at)
      (schedule_iteration a_run_id (λ id seed. 6) now nobody two_tables).monitors
    ≡ some (now + 60_000_000_006) ∷ []
unfolding schedule_iteration schedule_all schedule_monitor_tx schedule_regions list_due_monitors
    is_due create_job_idempotent create_job in_window clashes update_monitor_scheduling_time
    update_one apply_jitter calculate_dedup_window sort insert_sorted
monitor_moved = refl
