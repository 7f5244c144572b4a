-- ===== src/Store/Jobs.antt =====
-- internal/app/control-plane/store/sqlc/jobs.sql.go: the rows of app.jobs and the statements on
-- them. A statement takes the table and the database's NOW(), and returns its rows beside the
-- table; `locked` stands for the rows that other transactions hold (FOR UPDATE SKIP LOCKED).
pub mod Table
pub mod Lifecycle
pub mod Moves
pub mod Invariant
pub mod Lookup
pub mod Exclusive
pub mod Leasing
pub mod Polls
pub mod Spacing
pub mod Reaping
pub mod Queries
use openseer.Base.{
  ℕ, suc, ◌+◌, String, Bool, true, false, not, ◌&&◌, ◌||◌, Option, none, some, List, [], ◌∷◌, ◌++◌,
  map, ltb, leb, nat_eq, if◌then◌else◌, is_none, ◌==◌, string_eq, filter, find, any, take, count_if,
  Result, ok, err,
}
use openseer.Base.Sort.{sort}
use openseer.Store.Errors.{DbError, no_rows, constraint}

pub data JobStatus : Type 0 where
  ready leased done : JobStatus

abbrev pub is_ready : JobStatus → Bool
is_ready ready = true
is_ready _ = false

abbrev pub is_leased : JobStatus → Bool
is_leased leased = true
is_leased _ = false

abbrev pub is_done : JobStatus → Bool
is_done done = true
is_done _ = false

-- `status IN ('ready', 'leased')`
abbrev pub is_active : JobStatus → Bool
is_active done = false
is_active _ = true

pub record AppJob : Type 0 where
  pub run_id : String
  pub monitor_id : String
  pub region : String
  pub status : JobStatus
  pub scheduled_at : ℕ
  pub lease_expires_at : Option ℕ
  pub worker_id : Option String
  pub created_at : ℕ
  pub deleted_at : Option ℕ

-- `worker_id = $2`, which a NULL never passes.
abbrev pub held_by : String → Option String → Bool
held_by w none = false
held_by w (some v) = v == w

-- `lease_expires_at < NOW()`
abbrev pub expired_at : ℕ → Option ℕ → Bool
expired_at now none = false
expired_at now (some e) = ltb e now

abbrev pub update_where : (AppJob → Bool) → (AppJob → AppJob) → List AppJob → List AppJob
update_where p f = map (λ j. if p j then f j else j)

-- An UPDATE with RETURNING, read by QueryRow: the first row that it changed, or ErrNoRows.
unfoldable pub update_one :
    (AppJob → Bool) → (AppJob → AppJob) → List AppJob → Result DbError AppJob × List AppJob
update_one p f jobs = elim (find p jobs) [
  | none ↦ (err no_rows, jobs)
  | some j ↦ (ok (f j), update_where p f jobs)
]

pub record CreateJobParams : Type 0 where
  pub run_id : String
  pub monitor_id : String
  pub region : String
  pub scheduled_at : ℕ

abbrev pub new_job : ℕ → CreateJobParams → AppJob
new_job now p = record {
  run_id = p.run_id;
  monitor_id = p.monitor_id;
  region = p.region;
  status = ready;
  scheduled_at = p.scheduled_at;
  lease_expires_at = none;
  worker_id = none;
  created_at = now;
  deleted_at = none;
}

-- The primary key, and the unique index on the open jobs of a monitor, region and instant.
unfoldable pub clashes : AppJob → AppJob → Bool
clashes n j =
    j.run_id == n.run_id
    || (j.monitor_id == n.monitor_id
        && j.region == n.region
        && j.scheduled_at == n.scheduled_at
        && is_none j.deleted_at
        && is_active j.status)

-- INSERT, refused by the primary key or the unique index of open jobs. The foreign key
-- jobs_monitor_id_fkey is not modelled: the scheduler creates jobs of monitors that its transaction read,
-- and no statement here deletes the row of a monitor.
unfoldable pub create_job : ℕ → CreateJobParams → List AppJob → Result DbError AppJob × List AppJob
create_job now p jobs =
    let n = new_job now p in
    if any (clashes n) jobs then (err constraint, jobs) else (ok n, jobs ++ n ∷ [])

-- The open jobs that the NOT EXISTS of CreateJobIdempotent looks for, from $5 to $6.
unfoldable pub in_window : CreateJobParams → ℕ → ℕ → AppJob → Bool
in_window p start end_at j =
    j.monitor_id == p.monitor_id
    && j.region == p.region
    && is_none j.deleted_at
    && is_active j.status
    && leb start j.scheduled_at
    && leb j.scheduled_at end_at

unfoldable pub create_job_idempotent :
    ℕ → CreateJobParams → ℕ → ℕ → List AppJob → Result DbError AppJob × List AppJob
create_job_idempotent now p start end_at jobs =
    if any (in_window p start end_at) jobs then (err no_rows, jobs) else create_job now p jobs

pub record LeaseJobsParams : Type 0 where
  pub worker_id : String
  pub limit : ℕ
  pub region : String
  pub lease_expires_at : ℕ

-- The WHERE of the inner SELECT: ready, due, not deleted, of the region or 'global', not locked.
unfoldable pub can_lease : ℕ → (String → Bool) → String → AppJob → Bool
can_lease now locked region j =
    is_ready j.status
    && is_none j.deleted_at
    && leb j.scheduled_at now
    && (j.region == region || j.region == "global")
    && not (locked j.run_id)

-- CASE WHEN region = $3 THEN 0 ELSE 1 END
abbrev pub region_rank : String → AppJob → ℕ
region_rank region j = if j.region == region then 0 else 1

-- ORDER BY the rank, then scheduled_at.
unfoldable pub before : String → AppJob → AppJob → Bool
before region j k =
    ltb (region_rank region j) (region_rank region k)
    || (region_rank region j == region_rank region k && ltb j.scheduled_at k.scheduled_at)

-- The rows that the inner SELECT with LIMIT $2 picks, in its order.
unfoldable pub pick : ℕ → (String → Bool) → LeaseJobsParams → List AppJob → List AppJob
pick now locked p jobs =
    take p.limit (sort (before p.region) (filter (can_lease now locked p.region) jobs))

abbrev pub among : List AppJob → AppJob → Bool
among rows j = any (λ r. r.run_id == j.run_id) rows

abbrev pub lease_row : LeaseJobsParams → AppJob → AppJob
lease_row p j = record j {
  status = leased;
  lease_expires_at = some p.lease_expires_at;
  worker_id = some p.worker_id;
}

-- The UPDATE of LeaseJobsWithFallback and of LeaseJobsWithMonitorData, with the rows it returns.
unfoldable pub lease_jobs_with_fallback :
    ℕ → (String → Bool) → LeaseJobsParams → List AppJob → List AppJob × List AppJob
lease_jobs_with_fallback now locked p jobs =
    let rows = pick now locked p jobs in
    (map (lease_row p) rows, update_where (among rows) (lease_row p) jobs)

abbrev pub owns_lease : String → String → AppJob → Bool
owns_lease run_id worker_id j =
    j.run_id == run_id && is_leased j.status && held_by worker_id j.worker_id

unfoldable pub renew_lease : String → String → ℕ → List AppJob → Result DbError AppJob × List AppJob
unfolding update_one
renew_lease run_id worker_id expires jobs =
    update_one (owns_lease run_id worker_id) (λ j. record j { lease_expires_at = some expires })
      jobs

unfoldable pub complete_job : String → String → List AppJob → Result DbError AppJob × List AppJob
unfolding update_one
complete_job run_id worker_id jobs =
    update_one (owns_lease run_id worker_id)
      (λ j. record j { status = done; lease_expires_at = none }) jobs

unfoldable pub get_job_by_run_id : String → List AppJob → Result DbError AppJob
get_job_by_run_id run_id jobs = elim (find (λ j. j.run_id == run_id) jobs) [
  | none ↦ err no_rows
  | some j ↦ ok j
]

-- A lease that has run out, of a job that is not deleted.
abbrev pub is_reclaimable : ℕ → AppJob → Bool
is_reclaimable now j =
    is_leased j.status && is_none j.deleted_at && expired_at now j.lease_expires_at

abbrev pub reclaim_row : AppJob → AppJob
reclaim_row j = record j { status = ready; lease_expires_at = none; worker_id = none }

unfoldable pub reclaim_expired_leases : ℕ → List AppJob → List AppJob
reclaim_expired_leases now jobs = update_where (is_reclaimable now) reclaim_row jobs

-- The done jobs that DeleteDoneJobsBefore looks at.
abbrev pub is_old : ℕ → AppJob → Bool
is_old cutoff j = is_done j.status && is_none j.deleted_at && ltb j.scheduled_at cutoff

-- ORDER BY scheduled_at
abbrev pub older : AppJob → AppJob → Bool
older j k = ltb j.scheduled_at k.scheduled_at

unfoldable pub delete_done_jobs_before : ℕ → ℕ → List AppJob → ℕ × List AppJob
delete_done_jobs_before cutoff limit jobs =
    let rows = take limit (sort older (filter (is_old cutoff) jobs)) in
    (count_if (among rows) jobs, filter (λ j. not (among rows j)) jobs)

-- The soft delete of a monitor's open jobs.
unfoldable pub delete_monitor_jobs : ℕ → String → List AppJob → List AppJob
delete_monitor_jobs now monitor_id jobs =
    update_where (λ j. j.monitor_id == monitor_id && is_active j.status && is_none j.deleted_at)
      (λ j. record j { deleted_at = some now }) jobs
