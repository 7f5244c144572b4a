-- ===== src/ControlPlane/WorkerService/Polling.antt =====
-- GetJobs of internal/app/control-plane/api/worker/service.go: whose the returned jobs are.
use openseer.Base.{
  ℕ, String, ◌≡◌, refl, subst, inl, inr, Bool, ◌&&◌, some, List, [], ◌∷◌, Bool-cases, Option-cases,
  is_none, All, find, All-imp, All-map_of, string_eq, nat_eq, ◌==◌, Result, ok, err, Result-cases,
}
use openseer.Base.Int.{ℤ}
use openseer.ControlPlane.WorkerService.{
  Code, State, heartbeat_query, after_heartbeat, touch_worker_heartbeat, MonitorJob, monitor_job,
  lease_query, jobs_outcome, lease_for, get_jobs,
}
use openseer.Store.Db.{Database, Db, statement, statement_keeps, statement_ok}
use openseer.Store.Dispatch.{join_monitors, lease_jobs_with_monitor_data}
use openseer.Store.Errors.{DbError}
use openseer.Store.Jobs.{
  is_leased, AppJob, held_by, LeaseJobsParams, lease_jobs_with_fallback, get_job_by_run_id,
}
use openseer.Store.Jobs.Exclusive.{HoldsUntil}
use openseer.Store.Jobs.Polls.{poll_returns}
use openseer.Store.Jobs.Table.{Distinct}
use openseer.Store.Monitors.{AppMonitor}
use openseer.Store.Workers.{AppWorker, get_worker_by_id}
use openseer.ControlPlane.Heartbeats.{should_update}

-- A job message names a run that the worker holds.
abbrev pub is_held_run : String → String → AppJob → Bool
is_held_run worker_id run_id j =
    j.run_id == run_id && is_leased j.status && held_by worker_id j.worker_id

-- The table's job of a run is leased to the worker, until some instant.
abbrev pub IsLeasedTo : String → List AppJob → String → Type 0
IsLeasedTo worker_id jobs run_id =
    (j : AppJob) × (until : ℕ) × (get_job_by_run_id run_id jobs ≡ ok j)
    × HoldsUntil worker_id until j

join_monitors-All :
    (P : AppJob → Type 0) (monitors : List AppMonitor) (jobs : List AppJob)
    → All P jobs
    → All (λ r. P r.job) (join_monitors monitors jobs)
unfolding join_monitors
join_monitors-All P monitors [] h = tt
join_monitors-All P monitors (j ∷ jobs) h =
    elim (Option-cases (find (λ m. m.id == j.monitor_id && is_none m.deleted_at) monitors)) [
      | inl e ↦ rw (e, join_monitors) (join_monitors-All P monitors jobs h.1)
      | inr (m, e) ↦ rw (e, join_monitors) (h.0, join_monitors-All P monitors jobs h.1)
    ]

abbrev pub jobs_of : Result Code (List MonitorJob) → List MonitorJob
jobs_of (ok jobs) = jobs
jobs_of (err e) = []

-- The jobs in an answer are leased to the worker in the database that the answer leaves.
abbrev pub AnswersWith : String → Result Code (List MonitorJob) → Database → Type 0
AnswersWith worker_id answer s = All (λ m. IsLeasedTo worker_id s.jobs m.run_id) (jobs_of answer)

lease_query-leased :
    (locked : String → Bool) (p : LeaseJobsParams) (s : Database)
    → Distinct s.jobs
    → AnswersWith p.worker_id (jobs_outcome (lease_query locked p s).0) (lease_query locked p s).1
unfolding lease_jobs_with_monitor_data
lease_query-leased locked p s d =
    let (rows, jobs') = lease_jobs_with_fallback s.clock locked p s.jobs in
    All-map_of monitor_job (λ m. IsLeasedTo p.worker_id jobs' m.run_id)
      (join_monitors s.monitors rows)
      (join_monitors-All (λ j. IsLeasedTo p.worker_id jobs' j.run_id) s.monitors rows
        (All-imp _ _ (λ k h. (k, p.lease_expires_at, h.0, h.1)) rows
          (poll_returns s.clock locked p s.jobs d)))

lease_statement-leased :
    (locked : String → Bool) (p : LeaseJobsParams) (s : Database)
    → Distinct s.jobs
    → AnswersWith p.worker_id
        (jobs_outcome (statement (lease_query locked p) s).0)
        (statement (lease_query locked p) s).1
lease_statement-leased locked p s d = elim (Result-cases (statement (lease_query locked p) s).0) [
  | inl (rows, e) ↦
      let (fs, answered, t) = statement_ok (lease_query locked p) s e in
      rw (e, t)
        (subst
          (λ a.
            AnswersWith p.worker_id (jobs_outcome a)
              (lease_query locked p (record s { faults = fs })).1)
          answered (lease_query-leased locked p (record s { faults = fs }) d))
  | inr (x, e) ↦ rw e tt
]

lease_for-leased :
    (locked : String → Bool) (max_jobs : ℤ) (worker_id : String) (duration : ℕ)
    (r : Result DbError AppWorker) (s : Database)
    → Distinct s.jobs
    → AnswersWith worker_id
        (lease_for locked max_jobs worker_id duration r s).0
        (lease_for locked max_jobs worker_id duration r s).1
lease_for-leased locked max_jobs worker_id duration (err e) s d = tt
lease_for-leased locked max_jobs worker_id duration (ok w) s d = lease_statement-leased locked _ s d

pub after_heartbeat-db :
    (worker_id : String) (r : Result DbError (Unit {0})) (s : State)
    → (after_heartbeat worker_id r s).db ≡ s.db
after_heartbeat-db worker_id (ok u) s = refl
after_heartbeat-db worker_id (err e) s = refl

-- What holds of the table of jobs holds after a heartbeat.
pub touch_worker_heartbeat-keeps :
    (P : List AppJob → Type 0) (worker_id : String) (s : State)
    → P s.db.jobs
    → P (touch_worker_heartbeat worker_id s).db.jobs
unfolding touch_worker_heartbeat
touch_worker_heartbeat-keeps P worker_id s d =
    elim (Bool-cases (should_update s.db.clock worker_id s.service.heartbeats).0) [
      | inl e ↦
          rw (e, after_heartbeat-db worker_id (statement (heartbeat_query worker_id) s.db).0)
            (statement_keeps (λ t. P t.jobs) (heartbeat_query worker_id) (λ t fs k. k) (λ t k. k)
              s.db d)
      | inr e ↦ rw e d
    ]

-- Whatever becomes of the statements on the way: each job in the answer of GetJobs is, in the table
-- that the call leaves, leased to the worker that called. The run ids are distinct.
pub get_jobs_leased :
    (locked : String → Bool) (max_jobs : ℤ) (worker_id : String) (s : State)
    → Distinct s.db.jobs
    → let (answer, s') = get_jobs locked max_jobs (some worker_id) s in
      AnswersWith worker_id answer s'.db
unfolding get_jobs
get_jobs_leased locked max_jobs worker_id s d =
    let s1 = touch_worker_heartbeat worker_id s in
    let q : Db AppWorker = λ t. (get_worker_by_id worker_id t.workers, t) in
    lease_for-leased locked max_jobs worker_id s1.service.lease_duration (statement q s1.db).0
      (statement q s1.db).1
      (statement_keeps (λ t. Distinct t.jobs) q (λ t fs k. k) (λ t k. k) s1.db
        (touch_worker_heartbeat-keeps Distinct worker_id s d))
