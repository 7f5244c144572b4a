-- ===== src/Store/Jobs/Lifecycle.antt =====
-- The life of a job under the statements of jobs.sql.go that change app.jobs, but for two that only
-- tests/integration calls: LeaseJobs, and ForceExpireJobLease, which sets the deadline of a job in any
-- state. JobOp has the others; here are the moves that they make of a row.
use openseer.Base.{
  ℕ, ◌≤◌, ◌<◌, String, ◌≡◌, ◌≢◌, Bool, Option, none, some, List, [], ◌∷◌, string_eq, true,
}
use openseer.Store.Jobs.{
  AppJob, JobStatus, ready, leased, done, CreateJobParams, create_job, create_job_idempotent,
  LeaseJobsParams, lease_jobs_with_fallback, renew_lease, complete_job, reclaim_expired_leases,
  delete_done_jobs_before, delete_monitor_jobs, is_old, new_job,
}

-- The statements that change app.jobs, but LeaseJobs and ForceExpireJobLease.
pub data JobOp : Type 0 where
  create : CreateJobParams → JobOp
  create_idempotent : CreateJobParams → ℕ → ℕ → JobOp
  lease : (String → Bool) → LeaseJobsParams → JobOp
  renew : String → String → ℕ → JobOp
  complete : String → String → JobOp
  reclaim : JobOp
  clean : ℕ → ℕ → JobOp
  delete_open : String → JobOp

unfoldable pub apply : ℕ → JobOp → List AppJob → List AppJob
apply now (create p) jobs = (create_job now p jobs).1
apply now (create_idempotent p start end_at) jobs =
    (create_job_idempotent now p start end_at jobs).1
apply now (lease locked p) jobs = (lease_jobs_with_fallback now locked p jobs).1
apply now (renew run_id worker_id expires) jobs = (renew_lease run_id worker_id expires jobs).1
apply now (complete run_id worker_id) jobs = (complete_job run_id worker_id jobs).1
apply now reclaim jobs = reclaim_expired_leases now jobs
apply now (clean cutoff limit) jobs = (delete_done_jobs_before cutoff limit jobs).1
apply now (delete_open monitor_id) jobs = delete_monitor_jobs now monitor_id jobs

unfoldable pub apply_all : List (ℕ × JobOp) → List AppJob → List AppJob
apply_all [] jobs = jobs
apply_all ((now, op) ∷ ops) jobs = apply_all ops (apply now op jobs)

-- A ready job has no owner, a leased one has an owner and a deadline, a done one keeps its owner.
abbrev pub Shape : JobStatus → Option ℕ → Option String → Type 0
Shape ready none none = Unit
Shape leased (some e) (some w) = Unit
Shape done none (some w) = Unit
Shape _ _ _ = ⊥

abbrev pub HasShape : AppJob → Type 0
HasShape j = Shape j.status j.lease_expires_at j.worker_id

-- What one statement at the instant `now` may do to a row.
pub data Move (now : ℕ) (j k : AppJob) : Type 0 where
  stay : k ≡ j → Move now j k
  take_up :
      (w : String) (e : ℕ)
      → j.status ≡ ready
      → j.deleted_at ≡ none
      → j.scheduled_at ≤ now
      → k ≡ record j { status = leased; lease_expires_at = some e; worker_id = some w }
      → Move now j k
  extend :
      (w : String) (e : ℕ)
      → j.status ≡ leased
      → j.worker_id ≡ some w
      → k ≡ record j { lease_expires_at = some e }
      → Move now j k
  finish :
      (w : String)
      → j.status ≡ leased
      → j.worker_id ≡ some w
      → k ≡ record j { status = done; lease_expires_at = none }
      → Move now j k
  give_back :
      (e : ℕ)
      → j.status ≡ leased
      → j.lease_expires_at ≡ some e
      → e < now
      → k ≡ record j { status = ready; lease_expires_at = none; worker_id = none }
      → Move now j k
  withdraw :
      j.status ≢ done → j.deleted_at ≡ none → k ≡ record j { deleted_at = some now } → Move now j k

-- The one row that a statement adds, and the rows that it may delete for good.
abbrev pub Created : ℕ → JobOp → AppJob → Type 0
Created now (create p) j = j ≡ new_job now p
Created now (create_idempotent p start end_at) j = j ≡ new_job now p
Created now _ j = ⊥

abbrev pub Dropped : JobOp → AppJob → Type 0
Dropped (clean cutoff limit) j = is_old cutoff j ≡ true
Dropped _ j = ⊥

-- Row by row: each row moves, or is deleted, and a new one may stand at the end.
pub data Evolves (now : ℕ) (op : JobOp) : List AppJob → List AppJob → Type 0 where
  same : Evolves now op [] []
  row :
      {j k : AppJob} {jobs rows : List AppJob}
      → Move now j k
      → Evolves now op jobs rows
      → Evolves now op (j ∷ jobs) (k ∷ rows)
  drop :
      {j : AppJob} {jobs rows : List AppJob}
      → Dropped op j
      → Evolves now op jobs rows
      → Evolves now op (j ∷ jobs) rows
  added : {j : AppJob} → Created now op j → Evolves now op [] (j ∷ [])
