-- ===== src/ControlPlane/JobCleaner.antt =====
-- internal/app/control-plane/job_cleaner.go, lease_reaper.go and inactivity_monitor.go: the periodic
-- jobs, under their advisory locks where they take one.
pub mod Drain
use openseer.Base.{
  ℕ, zero, suc, ◌-◌, Bool, true, false, Option, none, some, ltb, if◌then◌else◌, length, Result, ok,
  err,
}
use openseer.Base.Int.{ℤ, positive_or}
use openseer.Store.Db.{Database, Db, statement}
use openseer.Store.Errors.{DbError}
use openseer.Store.Jobs.{reclaim_expired_leases, delete_done_jobs_before}
use openseer.Store.Workers.{mark_worker_inactive}

pub record JobCleaner : Type 0 where
  pub interval : ℕ
  pub retention_period : ℕ
  pub batch_size : ℕ

-- A minute, seven days and a thousand rows by default.
unfoldable pub new_job_cleaner : ℤ → ℤ → ℤ → JobCleaner
new_job_cleaner interval retention_period batch_size = record {
  interval = positive_or interval 60_000_000_000;
  retention_period = positive_or retention_period 604_800_000_000_000;
  batch_size = positive_or batch_size 1000;
}

abbrev pub clean_query : ℕ → ℕ → Db ℕ
clean_query cutoff limit s =
    let (deleted, jobs) = delete_done_jobs_before cutoff limit s.jobs in
    (ok deleted, record s { jobs = jobs })

-- How the loop ends: with a short batch, at an error, or for want of fuel.
pub data CleanupEnd : Type 0 where
  drained failed out_of_fuel : CleanupEnd

-- What one batch says: another one, or the end.
abbrev pub batch_outcome : ℕ → Result DbError ℕ → Option CleanupEnd
batch_outcome batch_size (err e) = some failed
batch_outcome batch_size (ok deleted) = if ltb deleted batch_size then some drained else none

unfoldable pub clean_loop : ℕ → ℕ → ℕ → Database → CleanupEnd × Database
clean_loop zero cutoff batch_size s = (out_of_fuel, s)
clean_loop (suc fuel) cutoff batch_size s =
    let (deleted, s') = statement (clean_query cutoff batch_size) s in
    let rest = clean_loop fuel cutoff batch_size s' in
    elim (batch_outcome batch_size deleted) [ none ↦ rest | some end ↦ (end, s') ]

-- runCleanup: nothing without the lock, `lock` being what pg_try_advisory_lock answers; one round
-- of fuel for each row, and one more.
unfoldable pub run_cleanup : JobCleaner → Option Bool → Database → Option CleanupEnd × Database
unfolding clean_loop
run_cleanup c none s = (none, s)
run_cleanup c (some false) s = (none, s)
run_cleanup c (some true) s =
    let (end, s') =
      clean_loop (suc (length s.jobs)) (s.clock - c.retention_period) c.batch_size s in
    (some end, s')

-- One tick of LeaseReaper.Start.
unfoldable pub reap_tick : Option Bool → Database → Database
reap_tick none s = s
reap_tick (some false) s = s
reap_tick (some true) s =
    (statement (λ d. (ok tt, record d { jobs = reclaim_expired_leases d.clock d.jobs })) s).1

-- One tick of WorkerInactivityMonitor.Start.
unfoldable pub inactivity_tick : Database → Database
inactivity_tick s =
    (statement (λ d. (ok tt, record d { workers = mark_worker_inactive d.clock d.workers })) s).1
