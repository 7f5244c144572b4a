-- ===== src/ControlPlane/System.antt =====
-- The control plane as cmd/control-plane/main.go runs it: the handlers of the worker and monitors services
-- and the periodic jobs, interleaved in any order over one database, whose statements may fail. Of the
-- monitors service only the calls that change a monitor, since the others write nothing; the enrollment,
-- dashboard and user services do not touch app.jobs and are not among the calls.
pub mod Statements
pub mod Periodic
pub mod Refinement
use openseer.Base.{ℕ, ◌+◌, String, Bool, Option, List, [], ◌∷◌}
use openseer.Base.Int.{ℤ}
use openseer.ControlPlane.JobCleaner.{JobCleaner, run_cleanup, reap_tick, inactivity_tick}
use openseer.ControlPlane.MonitorsService.Ownership.{MonitorCall, after_call}
use openseer.ControlPlane.Scheduler.{Tables, schedule_iteration}
use openseer.ControlPlane.WorkerService.{State}
use openseer.Store.Db.{Fault, Database}
use openseer.ControlPlane.WorkerService.Calls.{WorkerCall, worker_call}

-- One call; `later` and `fail_next` are the environment's: time goes on, and statements will fail.
pub data SystemCall : Type 0 where
  of_worker : WorkerCall → Option String → SystemCall
  reap_call : Option Bool → SystemCall
  mark_call : SystemCall
  clean_call : JobCleaner → Option Bool → SystemCall
  schedule_call : (String → String → ℕ → String) → (String → ℤ → ℕ) → (String → Bool) → SystemCall
  monitor_call : (String → String) → (String → Bool) → String → MonitorCall → SystemCall
  later : ℕ → SystemCall
  fail_next : List Fault → SystemCall

abbrev pub on_db : (Database → Database) → State → State
on_db f s = record s { db = f s.db }

abbrev pub tables_of : Database → Tables
tables_of d = record { jobs = d.jobs; monitors = d.monitors }

-- An iteration that got the lock, in its transaction.
abbrev pub schedule_tick :
    (String → String → ℕ → String) → (String → ℤ → ℕ) → (String → Bool) → Database → Database
schedule_tick gen hash locked d =
    let t = schedule_iteration gen hash d.clock locked (tables_of d) in
    record d { jobs = t.jobs; monitors = t.monitors }

unfoldable pub step : SystemCall → State → State
unfolding worker_call reap_tick inactivity_tick run_cleanup schedule_iteration after_call
step (of_worker call worker) s = worker_call call worker s
step (reap_call lock) s = on_db (reap_tick lock) s
step mark_call s = on_db inactivity_tick s
step (clean_call c lock) s = on_db (λ d. (run_cleanup c lock d).1) s
step (schedule_call gen hash locked) s = on_db (schedule_tick gen hash locked) s
step (monitor_call clean parses user call) s = on_db (after_call clean parses user call) s
step (later n) s = on_db (λ d. record d { clock = d.clock + n }) s
step (fail_next faults) s = on_db (λ d. record d { faults = faults }) s

unfoldable pub run_system : List SystemCall → State → State
unfolding step
run_system [] s = s
run_system (c ∷ calls) s = run_system calls (step c s)
