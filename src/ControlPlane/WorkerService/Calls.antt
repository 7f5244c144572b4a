-- ===== src/ControlPlane/WorkerService/Calls.antt =====
-- The calls of api/worker/service.go (internal/app/control-plane) as one type, and what they keep of app.jobs.
use openseer.Base.{
  ℕ, String, ◌≡◌, refl, inl, inr, Bool, Option, none, some, List, Bool-cases, Result, ok, err,
}
use openseer.Base.Int.{ℤ, positive_or}
use openseer.ControlPlane.Ingest.{MonitorResult, upsert_params, upsert_query, process_result}
use openseer.ControlPlane.WorkerService.{
  State, heartbeat_query, touch_worker_heartbeat, renew_query, renew_lease_call, complete_query,
  get_job_query, complete_outcome, complete_job_call, commit_outcome, commit_result, submit_result,
  lease_query, lease_for, get_jobs,
}
use openseer.ControlPlane.WorkerService.Polling.{after_heartbeat-db}
use openseer.Store.Db.{Fault, Database, Db, statement, statement_keeps}
use openseer.Store.Dispatch.{lease_jobs_with_monitor_data}
use openseer.Store.Errors.{DbError, no_rows, constraint, unavailable}
use openseer.Store.Jobs.{AppJob, LeaseJobsParams}
use openseer.Store.Jobs.Lifecycle.{JobOp, lease, renew, complete, apply}
use openseer.Store.Results.{ResultRow}
use openseer.Store.Workers.{AppWorker, get_worker_by_id, update_worker_heartbeat}
use openseer.ControlPlane.Heartbeats.{should_update}

-- A call with what the message says; for GetJobs also which rows other transactions hold.
pub data WorkerCall : Type 0 where
  ask_jobs : (String → Bool) → ℤ → WorkerCall
  give_result : Option MonitorResult → WorkerCall
  keep_lease : String → WorkerCall

-- The state that a call leaves; its answer is left out.
unfoldable pub worker_call : WorkerCall → Option String → State → State
unfolding get_jobs submit_result renew_lease_call
worker_call (ask_jobs locked max_jobs) worker s = (get_jobs locked max_jobs worker s).1
worker_call (give_result result) worker s = (submit_result result worker s).1
worker_call (keep_lease run_id) worker s = (renew_lease_call run_id worker s).1

-- The statements that act for the worker.
abbrev pub MadeBy : String → JobOp → Type 0
MadeBy w (lease locked p) = p.worker_id ≡ w
MadeBy w (renew run_id worker_id expires) = worker_id ≡ w
MadeBy w (complete run_id worker_id) = worker_id ≡ w
MadeBy w _ = ⊥

-- The statements on app.jobs that a call of the worker may make.
abbrev pub Acts : WorkerCall → String → JobOp → Type 0
Acts (ask_jobs locked max_jobs) w (lease held p) =
    (p.worker_id ≡ w) × (p.limit ≡ positive_or max_jobs 1)
Acts (give_result (some result)) w (complete run_id worker_id) =
    (run_id ≡ result.run_id) × (worker_id ≡ w)
Acts (keep_lease own_run) w (renew run_id worker_id expires) = (run_id ≡ own_run) × (worker_id ≡ w)
Acts _ _ _ = ⊥

pub Acts-MadeBy : (call : WorkerCall) (w : String) (op : JobOp) → Acts call w op → MadeBy w op
Acts-MadeBy (ask_jobs locked max_jobs) w (lease held p) h = h.0
Acts-MadeBy (give_result (some result)) w (complete run_id worker_id) h = h.1
Acts-MadeBy (keep_lease own_run) w (renew run_id worker_id expires) h = h.1
Acts-MadeBy _ w op h = absurd h

-- What a predicate on the database needs so that the calls of a worker keep it; `M` says which statements
-- on app.jobs they make.
pub record IsKept (M : JobOp → Type 0) (w : String) (P : Database → Type 0) : Type 0 where
  pub faulty : (d : Database) (fs : List Fault) → P d → P (record d { faults = fs })
  pub acted :
      (op : JobOp) → M op → (d : Database) → P d → P (record d { jobs = apply d.clock op d.jobs })
  pub beaten :
      (d : Database) → P d → P (record d { workers = update_worker_heartbeat d.clock w d.workers })
  pub recorded :
      (d : Database) (results : List ResultRow) → P d → P (record d { results = results })

module _ (M : JobOp → Type 0) (P : Database → Type 0) (w : String) (kept : IsKept M w P) where
  statement-P :
      {A : Type 0} (q : Db A)
      → ((d : Database) → P d → P (q d).1)
      → (d : Database) → P d
      → P (statement q d).1
  statement-P q keep d h = statement_keeps P q kept.faulty keep d h

  touched-P : (s : State) → P s.db → P (touch_worker_heartbeat w s).db
  unfolding touch_worker_heartbeat
  touched-P s h = elim (Bool-cases (should_update s.db.clock w s.service.heartbeats).0) [
    | inl e ↦
        rw (e, after_heartbeat-db w (statement (heartbeat_query w) s.db).0)
          (statement-P (heartbeat_query w) kept.beaten s.db h)
    | inr e ↦ rw e h
  ]

  lease-P :
      (locked : String → Bool) (p : LeaseJobsParams) (d : Database)
      → M (lease locked p)
      → P d
      → P (statement (lease_query locked p) d).1
  unfolding lease_jobs_with_monitor_data apply
  lease-P locked p d made h =
      statement-P (lease_query locked p) (λ t k. kept.acted (lease locked p) made t k) d h

  complete-P :
      (run_id : String) (d : Database)
      → M (complete run_id w)
      → P d
      → P (statement (complete_query run_id w) d).1
  unfolding apply
  complete-P run_id d made h =
      statement-P (complete_query run_id w) (λ t k. kept.acted (complete run_id w) made t k) d h

  renew-P :
      (run_id : String) (expires : ℕ) (d : Database)
      → M (renew run_id w expires)
      → P d
      → P (statement (renew_query run_id w expires) d).1
  unfolding apply
  renew-P run_id expires d made h =
      statement-P (renew_query run_id w expires)
        (λ t k. kept.acted (renew run_id w expires) made t k) d h

  for-P :
      (locked : String → Bool) (max_jobs : ℤ) (duration : ℕ) (r : Result DbError AppWorker)
      (d : Database)
      → ((p : LeaseJobsParams)
          → (p.worker_id ≡ w) × (p.limit ≡ positive_or max_jobs 1)
          → M (lease locked p))
      → P d
      → P (lease_for locked max_jobs w duration r d).1
  for-P locked max_jobs duration (err e) d made h = h
  for-P locked max_jobs duration (ok v) d made h = lease-P locked _ d (made _ (refl, refl)) h

  outcome-P :
      (run_id : String) (r : Result DbError AppJob) (d : Database)
      → P d
      → P (complete_outcome run_id r d).1
  outcome-P run_id (ok j) d h = h
  outcome-P run_id (err no_rows) d h = statement-P (get_job_query run_id) (λ t k. k) d h
  outcome-P run_id (err constraint) d h = h
  outcome-P run_id (err unavailable) d h = h

  committed-P :
      (run_id : String) (r : Result DbError ResultRow) (d : Database)
      → M (complete run_id w)
      → P d
      → P (commit_outcome w run_id r d).1
  unfolding complete_job_call
  committed-P run_id (err e) d made h = h
  committed-P run_id (ok stored_row) d made h =
      outcome-P run_id (statement (complete_query run_id w) d).0 _ (complete-P run_id d made h)

  commit-P :
      (result : MonitorResult) (d : Database)
      → M (complete result.run_id w)
      → P d
      → P (commit_result w result d).1
  unfolding commit_result process_result
  commit-P result d made h =
      committed-P result.run_id (process_result result d).0 (process_result result d).1 made
        (statement-P (upsert_query (upsert_params result)) (λ t k. kept.recorded t _ k) d h)

  -- A call of the worker keeps what each of its statements keeps, whatever becomes of them.
  pub worker_call-keeps :
      (call : WorkerCall) (s : State)
      → ((op : JobOp) → Acts call w op → M op)
      → P s.db
      → P (worker_call call (some w) s).db
  unfolding worker_call get_jobs submit_result renew_lease_call
  worker_call-keeps (ask_jobs locked max_jobs) s may h =
      let s1 = touch_worker_heartbeat w s in
      let q : Db AppWorker = λ t. (get_worker_by_id w t.workers, t) in
      for-P locked max_jobs s1.service.lease_duration (statement q s1.db).0 (statement q s1.db).1
        (λ p own. may (lease locked p) own) (statement-P q (λ t k. k) s1.db (touched-P s h))
  worker_call-keeps (give_result none) s may h = touched-P s h
  worker_call-keeps (give_result (some result)) s may h =
      commit-P result (touch_worker_heartbeat w s).db (may (complete result.run_id w) (refl, refl))
        (touched-P s h)
  worker_call-keeps (keep_lease run_id) s may h =
      renew-P run_id _ _ (may (renew run_id w _) (refl, refl)) (touched-P s h)
