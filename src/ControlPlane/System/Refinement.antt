-- ===== src/ControlPlane/System/Refinement.antt =====
-- The control plane (cmd/control-plane/main.go) against the sequences of single statements on app.jobs.
use openseer.Base.{
  String, sym, subst, inl, inr, Bool, ◌||◌, List, [], ◌∷◌, Bool-cases, string_eq, nat_eq, ◌==◌,
  Result, ok, err,
}
use openseer.ControlPlane.JobCleaner.{inactivity_tick}
use openseer.ControlPlane.MonitorsService.{
  CreateMonitorRequest, UpdateMonitorRequest, create_params, db_monitor_to_proto, health_query,
  with_warnings, stored, create_query, create_monitor_call, by_user_query, update_params,
  update_query, update_found, update_monitor_call, delete_query, delete_monitor_call,
}
use openseer.ControlPlane.MonitorsService.Ownership.{
  MonitorCall, create_call, update_call, delete_call, after_call,
}
use openseer.ControlPlane.System.{
  SystemCall, of_worker, reap_call, mark_call, clean_call, schedule_call, monitor_call, later,
  fail_next, tables_of, step, run_system,
}
use openseer.ControlPlane.System.Periodic.{
  ReapRule, CleanRule, ScheduleRule, reap_tick-Reaches, run_cleanup-Reaches,
  schedule_iteration-Reaches,
}
use openseer.ControlPlane.System.Statements.{
  Rule, Reaches, Reaches-self, WorkerRule, worker_call-Reaches,
}
use openseer.ControlPlane.WorkerService.{Code, State}
use openseer.Store.Db.{Database, Db, statement, statement_keeps}
use openseer.Store.Errors.{DbError}
use openseer.Store.Jobs.{AppJob}
use openseer.Store.Jobs.Invariant.{IsTable, apply_all-IsTable}
use openseer.Store.Monitors.{AppMonitor}

module _ (P : List AppJob → Type 0) where
  abbrev OnJobs : Database → Type 0
  OnJobs d = P d.jobs

  unchanged :
      {A : Type 0} (q : Db A)
      → ((d : Database) → OnJobs d → OnJobs (q d).1)
      → (d : Database) → OnJobs d
      → OnJobs (statement q d).1
  unchanged q keep d h = statement_keeps OnJobs q (λ t fs k. k) keep d h

  with_warnings-keeps :
      (regions : List String) (r : Result Code AppMonitor) (d : Database)
      → OnJobs d
      → OnJobs (with_warnings regions r d).1
  with_warnings-keeps regions (err e) d h = h
  with_warnings-keeps [] (ok m) d h = h
  with_warnings-keeps (x ∷ regions) (ok m) d h = unchanged health_query (λ t k. k) d h

  stored-keeps :
      (parses : String → Bool) (regions : List String) (r : Result DbError AppMonitor)
      (d : Database)
      → OnJobs d
      → OnJobs (stored parses regions r d).1
  stored-keeps parses regions (err e) d h = h
  stored-keeps parses regions (ok m) d h =
      with_warnings-keeps regions (db_monitor_to_proto parses m) d h

  create_monitor_call-keeps :
      (tidy : String → String) (parses : String → Bool) (user : String) (msg : CreateMonitorRequest)
      (d : Database)
      → OnJobs d
      → OnJobs (create_monitor_call tidy parses user msg d).1
  unfolding create_monitor_call
  create_monitor_call-keeps tidy parses user msg d h =
      let p = create_params tidy user msg in
      let made = statement (create_query p) d in
      elim (Bool-cases (msg.id == "" || msg.url == "")) [
        | inl e ↦ rw e h
        | inr e ↦ rw e (
            stored-keeps parses p.regions made.0 made.1 (unchanged (create_query p) (λ t k. k) d h))
      ]

  update_found-keeps :
      (tidy : String → String) (parses : String → Bool) (user : String) (msg : UpdateMonitorRequest)
      (r : Result DbError AppMonitor) (d : Database)
      → OnJobs d
      → OnJobs (update_found tidy parses user msg r d).1
  update_found-keeps tidy parses user msg (err e) d h = h
  update_found-keeps tidy parses user msg (ok m) d h =
      let p = update_params tidy user msg m in
      let made = statement (update_query p) d in
      stored-keeps parses p.regions made.0 made.1 (unchanged (update_query p) (λ t k. k) d h)

  update_monitor_call-keeps :
      (tidy : String → String) (parses : String → Bool) (user : String) (msg : UpdateMonitorRequest)
      (d : Database)
      → OnJobs d
      → OnJobs (update_monitor_call tidy parses user msg d).1
  unfolding update_monitor_call
  update_monitor_call-keeps tidy parses user msg d h =
      let read = statement (by_user_query msg.id user) d in
      elim (Bool-cases (msg.id == "")) [
        | inl e ↦ rw e h
        | inr e ↦ rw e (
            update_found-keeps tidy parses user msg read.0 read.1
              (unchanged (by_user_query msg.id user) (λ t k. k) d h))
      ]

  delete_monitor_call-keeps :
      (user id : String) (d : Database) → OnJobs d → OnJobs (delete_monitor_call user id d).1
  unfolding delete_monitor_call
  delete_monitor_call-keeps user id d h = elim (Bool-cases (id == "")) [
    | inl e ↦ rw e h
    | inr e ↦ rw e (unchanged (delete_query id user) (λ t k. k) d h)
  ]

  after_call-keeps :
      (tidy : String → String) (parses : String → Bool) (user : String) (call : MonitorCall)
      (d : Database)
      → OnJobs d
      → OnJobs (after_call tidy parses user call d)
  unfolding after_call
  after_call-keeps tidy parses user (create_call msg) d h =
      create_monitor_call-keeps tidy parses user msg d h
  after_call-keeps tidy parses user (update_call msg) d h =
      update_monitor_call-keeps tidy parses user msg d h
  after_call-keeps tidy parses user (delete_call id) d h = delete_monitor_call-keeps user id d h

  inactivity_tick-keeps : (d : Database) → OnJobs d → OnJobs (inactivity_tick d)
  unfolding inactivity_tick
  inactivity_tick-keeps d h = unchanged _ (λ t k. k) d h

-- What a call may do to app.jobs: the worker's calls and the periodic jobs what their rules say, the
-- others nothing.
abbrev pub CallRule : SystemCall → Database → Rule
CallRule (of_worker call worker) d = WorkerRule call worker d.clock
CallRule (reap_call lock) d = ReapRule lock d.clock
CallRule (clean_call c lock) d = CleanRule c lock d.clock
CallRule (schedule_call gen hash locked) d = ScheduleRule gen d.clock
CallRule _ d = λ now op. ⊥

pub system_refines :
    (c : SystemCall) (s : State) → Reaches (CallRule c s.db) s.db.jobs (step c s).db.jobs
unfolding step
system_refines (of_worker call worker) s = worker_call-Reaches call worker s
system_refines (reap_call lock) s = reap_tick-Reaches lock s.db
system_refines mark_call s =
    inactivity_tick-keeps (Reaches _ s.db.jobs) s.db (Reaches-self _ s.db.jobs)
system_refines (clean_call c lock) s = run_cleanup-Reaches c lock s.db
system_refines (schedule_call gen hash locked) s =
    schedule_iteration-Reaches gen s.db.clock s.db.jobs hash locked (tables_of s.db)
      (Reaches-self _ s.db.jobs)
system_refines (monitor_call tidy parses user call) s =
    after_call-keeps (Reaches _ s.db.jobs) tidy parses user call s.db (Reaches-self _ s.db.jobs)
system_refines (later n) s = Reaches-self _ s.db.jobs
system_refines (fail_next faults) s = Reaches-self _ s.db.jobs

-- So the run ids stay distinct and the columns of each job consistent over any sequence of these calls.
pub system-IsTable :
    (calls : List SystemCall) (s : State) → IsTable s.db.jobs → IsTable (run_system calls s).db.jobs
unfolding run_system
system-IsTable [] s t = t
system-IsTable (c ∷ calls) s t =
    let (ops, each, e) = system_refines c s in
    system-IsTable calls (step c s) (subst IsTable (sym e) (apply_all-IsTable ops s.db.jobs t))
