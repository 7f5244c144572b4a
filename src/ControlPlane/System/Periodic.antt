-- ===== src/ControlPlane/System/Periodic.antt =====
-- What the periodic jobs (internal/app/control-plane) do to app.jobs, as sequences
-- of single statements.
use openseer.Base.{
  ℕ, zero, suc, ◌+◌, ◌-◌, String, ◌≡◌, refl, inl, inr, Bool, true, false, Option, none, some, List,
  [], ◌∷◌, Option-cases, length,
}
use openseer.Base.Int.{ℤ}
use openseer.ControlPlane.JobCleaner.{
  JobCleaner, clean_query, batch_outcome, clean_loop, run_cleanup, reap_tick,
}
use openseer.ControlPlane.Scheduler.{
  scheduled_instant, base_interval, job_params, create_outcome, schedule_regions, Tables,
  schedule_monitor_tx, aborts, schedule_all, look_ahead, schedule_iteration,
}
use openseer.ControlPlane.Scheduler.Timing.{calculate_dedup_window}
use openseer.ControlPlane.System.Statements.{
  Rule, Reaches, Reaches-self, then_op, OnDb, statement_reaches,
}
use openseer.Store.Db.{Database, statement}
use openseer.Store.Jobs.{AppJob, create_job_idempotent}
use openseer.Store.Jobs.Lifecycle.{create_idempotent, reclaim, clean, apply}
use openseer.Store.Monitors.{AppMonitor, list_due_monitors}

-- The reaper and the cleaner act only with the lock: the one gives back what is overdue, the other deletes
-- what is older than the retention period, a batch at a time.
abbrev pub ReapRule : Option Bool → ℕ → Rule
ReapRule (some true) clock now reclaim = now ≡ clock
ReapRule _ clock now op = ⊥

abbrev pub CleanRule : JobCleaner → Option Bool → ℕ → Rule
CleanRule c (some true) clock now (clean cutoff limit) =
    (now ≡ clock) × (cutoff ≡ clock - c.retention_period) × (limit ≡ c.batch_size)
CleanRule c _ clock now op = ⊥

-- The scheduler creates jobs of monitors at their scheduled instants, over the window around these.
abbrev pub ScheduleRule : (String → String → ℕ → String) → ℕ → Rule
ScheduleRule gen clock now (create_idempotent p start end) =
    (m : AppMonitor) × (region : String) × (now ≡ clock)
    × (p ≡ job_params gen m (scheduled_instant clock m.next_due_at) region)
    × (start
        ≡ scheduled_instant clock m.next_due_at
          - calculate_dedup_window (base_interval m.interval_ms))
    × (end
        ≡ scheduled_instant clock m.next_due_at
          + calculate_dedup_window (base_interval m.interval_ms))
ScheduleRule gen clock now _ = ⊥

pub reap_tick-Reaches :
    (lock : Option Bool) (d : Database)
    → Reaches (ReapRule lock d.clock) d.jobs (reap_tick lock d).jobs
unfolding reap_tick apply
reap_tick-Reaches none d = Reaches-self _ d.jobs
reap_tick-Reaches (some false) d = Reaches-self _ d.jobs
reap_tick-Reaches (some true) d =
    let may = ReapRule (some true) d.clock in
    (statement_reaches may d.jobs _ d.clock
      (λ t k. (k.0, then_op may d.jobs t.clock reclaim k.0 t.jobs k.1)) d
      (refl, Reaches-self may d.jobs)).1

module _ (c : JobCleaner) (clock : ℕ) (from : List AppJob) where
  abbrev Cleaned : Database → Type 0
  Cleaned = OnDb (CleanRule c (some true) clock) from clock

  clean_reaches :
      (d : Database)
      → Cleaned d
      → Cleaned (statement (clean_query (clock - c.retention_period) c.batch_size) d).1
  unfolding apply
  clean_reaches d h =
      let cutoff = clock - c.retention_period in
      let may = CleanRule c (some true) clock in
      statement_reaches may from (clean_query cutoff c.batch_size) clock
        (λ t k.
          (k.0, then_op may from t.clock (clean cutoff c.batch_size) (k.0, refl, refl) t.jobs k.1))
        d h

  loop_reaches :
      (fuel : ℕ) (d : Database)
      → Cleaned d
      → Cleaned (clean_loop fuel (clock - c.retention_period) c.batch_size d).1
  unfolding clean_loop
  loop_reaches zero d h = h
  loop_reaches (suc fuel) d h =
      let next = clean_reaches d h in
      let cutoff = clock - c.retention_period in
      elim (Option-cases
        (batch_outcome c.batch_size (statement (clean_query cutoff c.batch_size) d).0)) [
          | inl e ↦ rw (e, clean_loop) (loop_reaches fuel _ next)
          | inr (x, e) ↦ rw (e, clean_loop) next
        ]

pub run_cleanup-Reaches :
    (c : JobCleaner) (lock : Option Bool) (d : Database)
    → Reaches (CleanRule c lock d.clock) d.jobs (run_cleanup c lock d).1.jobs
unfolding run_cleanup
run_cleanup-Reaches c none d = Reaches-self _ d.jobs
run_cleanup-Reaches c (some false) d = Reaches-self _ d.jobs
run_cleanup-Reaches c (some true) d =
    (loop_reaches c d.clock d.jobs (suc (length d.jobs)) d (refl, Reaches-self _ d.jobs)).1

module _ (gen : String → String → ℕ → String) (now : ℕ) (from : List AppJob) where
  abbrev Scheduled : List AppJob → Type 0
  Scheduled = Reaches (ScheduleRule gen now) from

  regions-Reaches :
      (m : AppMonitor) (regions : List String) (jobs : List AppJob)
      → Scheduled jobs
      → Scheduled
          (schedule_regions gen now m
            (scheduled_instant now m.next_due_at)
            (calculate_dedup_window (base_interval m.interval_ms))
            regions
            jobs).1
  unfolding schedule_regions apply
  regions-Reaches m [] jobs h = h
  regions-Reaches m (region ∷ regions) jobs h =
      let at = scheduled_instant now m.next_due_at in
      let window = calculate_dedup_window (base_interval m.interval_ms) in
      let p = job_params gen m at region in
      let created = create_job_idempotent now p (at - window) (at + window) jobs in
      let next : Scheduled created.1 =
        then_op (ScheduleRule gen now) from now (create_idempotent p (at - window) (at + window))
          (m, region, refl, refl, refl, refl) jobs h in
      elim (Option-cases (create_outcome created.0)) [
        | inl e ↦ rw (e, schedule_regions) (regions-Reaches m regions created.1 next)
        | inr (x, e) ↦ rw (e, schedule_regions) next
      ]

  monitor-Reaches :
      (hash : String → ℤ → ℕ) (m : AppMonitor) (t : Tables)
      → Scheduled t.jobs
      → Scheduled (schedule_monitor_tx gen hash now m t).1.jobs
  unfolding schedule_monitor_tx
  monitor-Reaches hash m t h =
      let at = scheduled_instant now m.next_due_at in
      let window = calculate_dedup_window (base_interval m.interval_ms) in
      let next = regions-Reaches m m.regions t.jobs h in
      elim (Option-cases (schedule_regions gen now m at window m.regions t.jobs).0) [
        | inl e ↦ rw (e, schedule_monitor_tx) next
        | inr (x, e) ↦ rw (e, schedule_monitor_tx) next
      ]

  all-Reaches :
      (hash : String → ℤ → ℕ) (due : List AppMonitor) (t : Tables)
      → Scheduled t.jobs
      → Scheduled (schedule_all gen hash now due t).1.jobs
  unfolding schedule_all
  all-Reaches hash [] t h = h
  all-Reaches hash (m ∷ due) t h =
      let next = monitor-Reaches hash m t h in
      elim (Option-cases (aborts (schedule_monitor_tx gen hash now m t).0)) [
        | inl e ↦ rw (e, schedule_all) (all-Reaches hash due _ next)
        | inr (x, e) ↦ rw (e, schedule_all) next
      ]

  pub schedule_iteration-Reaches :
      (hash : String → ℤ → ℕ) (locked : String → Bool) (t : Tables)
      → Scheduled t.jobs
      → Scheduled (schedule_iteration gen hash now locked t).jobs
  unfolding schedule_iteration
  schedule_iteration-Reaches hash locked t h =
      let due = list_due_monitors (now + look_ahead) locked t.monitors in
      elim (Option-cases (schedule_all gen hash now due t).0) [
        | inl e ↦ rw (e, schedule_iteration) (all-Reaches hash due t h)
        | inr (x, e) ↦ rw (e, schedule_iteration) h
      ]
