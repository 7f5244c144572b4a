-- ===== src/ControlPlane/Scheduler.antt =====
-- internal/app/control-plane/scheduler.go: what one iteration, under its advisory lock, does to the
-- tables. `generate_run_id` stands for generateRunID and `hash` for the FNV-1a sum of a monitor's id
-- and seed; `now` is time.Now() and NOW() of the transaction.
pub mod Timing
pub mod Coverage
pub mod Iteration
pub mod Pace
use openseer.Base.{
  ℕ, ◌+◌, ◌-◌, ◌*◌, String, Bool, Option, none, some, List, [], ◌∷◌, ltb, if◌then◌else◌, Result, ok,
  err,
}
use openseer.Store.Jobs.{AppJob, CreateJobParams, create_job_idempotent}
use openseer.Store.Monitors.{AppMonitor, list_due_monitors, update_monitor_scheduling_time}
use openseer.Base.Int.{ℤ, pos, negsuc, add_duration}
use openseer.ControlPlane.Scheduler.Timing.{apply_jitter, calculate_dedup_window}
use openseer.Store.Errors.{DbError, no_rows, constraint, unavailable}

-- The instant at which the monitor's jobs are due: not before now.
abbrev pub scheduled_instant : ℕ → Option ℕ → ℕ
scheduled_instant now none = now
scheduled_instant now (some due) = if ltb now due then due else now

-- time.Duration(IntervalMs) * time.Millisecond
abbrev pub base_interval : ℤ → ℤ
base_interval (pos ms) = pos (ms * 1_000_000)
base_interval (negsuc ms) = negsuc (ms * 1_000_000 + 999_999)

abbrev pub job_params : (String → String → ℕ → String) → AppMonitor → ℕ → String → CreateJobParams
job_params generate_run_id m at region = record {
  run_id = generate_run_id m.id region at;
  monitor_id = m.id;
  region = region;
  scheduled_at = at;
}

-- What the loop makes of CreateJobIdempotent: a job that exists already is no error.
abbrev pub create_outcome : Result DbError AppJob → Option DbError
create_outcome (ok j) = none
create_outcome (err no_rows) = none
create_outcome (err constraint) = some constraint
create_outcome (err unavailable) = some unavailable

-- The loop over the regions, which ends at the first error.
unfoldable pub schedule_regions :
    (String → String → ℕ → String)
    → ℕ
    → AppMonitor
    → ℕ
    → ℕ
    → List String
    → List AppJob
    → Option DbError × List AppJob
schedule_regions gen now m at window [] jobs = (none, jobs)
schedule_regions gen now m at window (region ∷ regions) jobs =
    let (created, jobs') =
      create_job_idempotent now (job_params gen m at region) (at - window) (at + window) jobs in
    let rest = schedule_regions gen now m at window regions jobs' in
    elim (create_outcome created) [ none ↦ rest | some e ↦ (some e, jobs') ]

-- The tables that the transaction writes.
pub record Tables : Type 0 where
  pub jobs : List AppJob
  pub monitors : List AppMonitor

abbrev pub update_outcome : Result DbError AppMonitor → Option DbError
update_outcome (ok m) = none
update_outcome (err e) = some e

unfoldable pub schedule_monitor_tx :
    (String → String → ℕ → String)
    → (String → ℤ → ℕ)
    → ℕ
    → AppMonitor
    → Tables
    → Option DbError × Tables
unfolding schedule_regions
schedule_monitor_tx gen hash now m t =
    let at = scheduled_instant now m.next_due_at in
    let interval = base_interval m.interval_ms in
    let next_due = add_duration at (apply_jitter (hash m.id m.jitter_seed) interval) in
    let (failed, jobs') =
      schedule_regions gen now m at (calculate_dedup_window interval) m.regions t.jobs in
    let (updated, monitors') = update_monitor_scheduling_time now m.id at next_due t.monitors in
    elim failed [
      | none ↦ (update_outcome updated, record { jobs = jobs'; monitors = monitors' })
      | some e ↦ (some e, record { jobs = jobs'; monitors = t.monitors })
    ]

-- The errors that abort the transaction: not finding a row is none for the database.
abbrev pub aborts : Option DbError → Option DbError
aborts none = none
aborts (some no_rows) = none
aborts (some constraint) = some constraint
aborts (some unavailable) = some unavailable

-- The loop over the due monitors goes on after an error; once the transaction is aborted, what follows
-- fails too and the commit at the end keeps nothing.
unfoldable pub schedule_all :
    (String → String → ℕ → String)
    → (String → ℤ → ℕ)
    → ℕ
    → List AppMonitor
    → Tables
    → Option DbError × Tables
unfolding schedule_monitor_tx
schedule_all gen hash now [] t = (none, t)
schedule_all gen hash now (m ∷ monitors) t =
    let (failed, t') = schedule_monitor_tx gen hash now m t in
    let rest = schedule_all gen hash now monitors t' in
    elim (aborts failed) [ none ↦ rest | some e ↦ (some e, t') ]

-- Five seconds.
abbrev pub look_ahead : ℕ
look_ahead = 5_000_000_000

unfoldable pub schedule_iteration :
    (String → String → ℕ → String) → (String → ℤ → ℕ) → ℕ → (String → Bool) → Tables → Tables
unfolding schedule_all
schedule_iteration gen hash now locked t =
    let due = list_due_monitors (now + look_ahead) locked t.monitors in
    let (failed, t') = schedule_all gen hash now due t in elim failed [ none ↦ t' | some e ↦ t ]
