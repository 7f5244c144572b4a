-- ===== src/ControlPlane/WorkerService.antt =====
-- internal/app/control-plane/api/worker/service.go: the calls of an authenticated worker. A handler
-- takes the worker's id from the request's context, and time.Now() is the database's clock.
pub mod Commit
pub mod Polling
pub mod Renewal
pub mod Calls
pub mod Served
use openseer.Base.{
  ℕ, ◌+◌, String, Bool, false, Option, none, some, List, map, if◌then◌else◌, is_none, Result, ok,
  err, is_ok,
}
use openseer.Base.Int.{ℤ, pos, positive_or}
use openseer.ControlPlane.Heartbeats.{
  HeartbeatTracker, new_heartbeat_tracker, should_update, invalidate,
}
use openseer.ControlPlane.Ingest.{MonitorResult, process_result}
use openseer.Store.Db.{Database, Db, statement}
use openseer.Store.Dispatch.{LeasedRow, lease_jobs_with_monitor_data}
use openseer.Store.Errors.{DbError, no_rows}
use openseer.Store.Jobs.{
  is_done, AppJob, LeaseJobsParams, renew_lease, complete_job, get_job_by_run_id,
}
use openseer.Store.Workers.{AppWorker, get_worker_by_id, update_worker_heartbeat}
use openseer.Store.Results.{ResultRow}

pub data Code : Type 0 where
  unauthenticated not_found invalid_argument internal : Code

pub record WorkerService : Type 0 where
  pub lease_duration : ℕ
  pub heartbeats : HeartbeatTracker

unfoldable pub new_worker_service : ℤ → ℤ → WorkerService
new_worker_service lease_duration min_interval = record {
  lease_duration = positive_or lease_duration 45_000_000_000;
  heartbeats = new_heartbeat_tracker (pos (positive_or min_interval 15_000_000_000));
}

-- The service and the database that a handler works on.
pub record State : Type 0 where
  pub service : WorkerService
  pub db : Database

abbrev pub set_heartbeats : HeartbeatTracker → State → State
set_heartbeats h s = record s { service = record s.service { heartbeats = h } }

abbrev pub heartbeat_query : String → Db (Unit {0})
heartbeat_query worker_id s =
    (ok tt, record s { workers = update_worker_heartbeat s.clock worker_id s.workers })

abbrev pub after_heartbeat : String → Result DbError (Unit {0}) → State → State
after_heartbeat worker_id (ok u) s = s
after_heartbeat worker_id (err e) s = set_heartbeats (invalidate worker_id s.service.heartbeats) s

unfoldable pub touch_worker_heartbeat : String → State → State
touch_worker_heartbeat worker_id s =
    let (due, tracker) = should_update s.db.clock worker_id s.service.heartbeats in
    let s' = set_heartbeats tracker s in
    let (answer, db) = statement (heartbeat_query worker_id) s'.db in
    if due then after_heartbeat worker_id answer (record s' { db = db }) else s'

abbrev pub renew_query : String → String → ℕ → Db AppJob
renew_query run_id worker_id expires s =
    let (r, jobs) = renew_lease run_id worker_id expires s.jobs in (r, record s { jobs = jobs })

unfoldable pub renew_lease_call : String → Option String → State → Result Code Bool × State
unfolding touch_worker_heartbeat
renew_lease_call run_id none s = (err unauthenticated, s)
renew_lease_call run_id (some worker_id) s =
    let s' = touch_worker_heartbeat worker_id s in
    let (r, db) =
      statement (renew_query run_id worker_id (s'.db.clock + s'.service.lease_duration)) s'.db in
    (ok (is_ok r), record s' { db = db })

abbrev pub complete_query : String → String → Db AppJob
complete_query run_id worker_id s =
    let (r, jobs) = complete_job run_id worker_id s.jobs in (r, record s { jobs = jobs })

abbrev pub get_job_query : String → Db AppJob
get_job_query run_id s = (get_job_by_run_id run_id s.jobs, s)

-- After ErrNoRows: whether the job is done already.
abbrev pub already_done : Result DbError AppJob → Bool
already_done (ok j) = is_done j.status
already_done (err e) = false

-- The error of completeJob, if any.
abbrev pub complete_outcome : String → Result DbError AppJob → Database → Option DbError × Database
complete_outcome run_id (ok j) s = (none, s)
complete_outcome run_id (err no_rows) s =
    let (r, s') = statement (get_job_query run_id) s in
    (if already_done r then none else some no_rows, s')
complete_outcome run_id (err e) s = (some e, s)

unfoldable pub complete_job_call : String → String → Database → Option DbError × Database
complete_job_call worker_id run_id s =
    let (r, s') = statement (complete_query run_id worker_id) s in complete_outcome run_id r s'

pub record SubmitResultResponse : Type 0 where
  pub committed : Bool
  pub run_id : String

-- Whether the result is stored and the job complete.
abbrev pub commit_outcome : String → String → Result DbError ResultRow → Database → Bool × Database
commit_outcome worker_id run_id (err e) s = (false, s)
commit_outcome worker_id run_id (ok row) s =
    let (e, s') = complete_job_call worker_id run_id s in (is_none e, s')

unfoldable pub commit_result : String → MonitorResult → Database → Bool × Database
unfolding complete_job_call
commit_result worker_id result s =
    let (r, s') = process_result result s in commit_outcome worker_id result.run_id r s'

unfoldable pub submit_result :
    Option MonitorResult → Option String → State → Result Code SubmitResultResponse × State
unfolding touch_worker_heartbeat commit_result
submit_result result none s = (err unauthenticated, s)
submit_result none (some worker_id) s = (err invalid_argument, touch_worker_heartbeat worker_id s)
submit_result (some result) (some worker_id) s =
    let s' = touch_worker_heartbeat worker_id s in
    let (committed, db) = commit_result worker_id result s'.db in
    (ok (record { committed = committed; run_id = result.run_id }), record s' { db = db })

-- The message MonitorJob of gen/openseer/v1; `headers` is the stored JSON, not yet decoded.
pub record MonitorJob : Type 0 where
  pub run_id : String
  pub monitor_id : String
  pub url : String
  pub timeout_ms : ℤ
  pub method : String
  pub headers : Option String

abbrev pub monitor_job : LeasedRow → MonitorJob
monitor_job r = record {
  run_id = r.job.run_id;
  monitor_id = r.job.monitor_id;
  url = r.url;
  timeout_ms = r.timeout_ms;
  method = r.method;
  headers = r.headers;
}

abbrev pub lease_query : (String → Bool) → LeaseJobsParams → Db (List LeasedRow)
lease_query locked p s =
    let (rows, jobs) = lease_jobs_with_monitor_data s.clock locked p s.monitors s.jobs in
    (ok rows, record s { jobs = jobs })

abbrev pub jobs_outcome : Result DbError (List LeasedRow) → Result Code (List MonitorJob)
jobs_outcome (ok rows) = ok (map monitor_job rows)
jobs_outcome (err e) = err internal

-- The lease for a known worker.
abbrev pub lease_for :
    (String → Bool)
    → ℤ
    → String
    → ℕ
    → Result DbError AppWorker
    → Database
    → Result Code (List MonitorJob) × Database
lease_for locked max_jobs worker_id duration (err e) s = (err not_found, s)
lease_for locked max_jobs worker_id duration (ok w) s =
    let p : LeaseJobsParams = record {
      worker_id = worker_id;
      limit = positive_or max_jobs 1;
      region = w.region;
      lease_expires_at = s.clock + duration;
    } in
    let (rows, s') = statement (lease_query locked p) s in (jobs_outcome rows, s')

unfoldable pub get_jobs :
    (String → Bool) → ℤ → Option String → State → Result Code (List MonitorJob) × State
unfolding touch_worker_heartbeat
get_jobs locked max_jobs none s = (err unauthenticated, s)
get_jobs locked max_jobs (some worker_id) s =
    let s1 = touch_worker_heartbeat worker_id s in
    let (worker, db1) = statement (λ d. (get_worker_by_id worker_id d.workers, d)) s1.db in
    let (jobs, db2) = lease_for locked max_jobs worker_id s1.service.lease_duration worker db1 in
    (jobs, record s1 { db = db2 })
