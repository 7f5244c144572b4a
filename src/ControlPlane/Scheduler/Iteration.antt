-- ===== src/ControlPlane/Scheduler/Iteration.antt =====
-- What a whole iteration of the scheduler (internal/app/control-plane/scheduler.go) leaves in the tables.
use openseer.Base.{
  ℕ, ◌+◌, ◌-◌, String, ◌≡◌, refl, sym, ap, ◌∙◌, subst, ◌≢◌, ◌⊎◌, inl, inr, Bool, true, Option, none,
  some, List, [], ◌∷◌, arith, Option-cases, All, any, All-imp, Result, ok, err,
}
use openseer.Base.Int.{ℤ}
use openseer.ControlPlane.Scheduler.{
  scheduled_instant, base_interval, job_params, create_outcome, schedule_regions, Tables,
  schedule_monitor_tx, aborts, schedule_all, look_ahead, schedule_iteration,
}
use openseer.ControlPlane.Scheduler.Coverage.{schedule_keeps, IsCovered, schedule_covers}
use openseer.ControlPlane.Scheduler.Timing.{calculate_dedup_window}
use openseer.Store.Errors.{DbError, no_rows, constraint, unavailable}
use openseer.Store.Jobs.{AppJob, create_job_idempotent}
use openseer.Store.Monitors.{AppMonitor, list_due_monitors}

module _ (gen : String → String → ℕ → String) (hash : String → ℤ → ℕ) (now : ℕ) where
  -- Each region of the monitor has an open job around the instant at which the monitor is scheduled.
  abbrev pub IsScheduled : List AppJob → AppMonitor → Type 0
  IsScheduled jobs m =
      All
        (IsCovered gen m (scheduled_instant now m.next_due_at)
          (calculate_dedup_window (base_interval m.interval_ms)) jobs)
        m.regions

  create_no_rows : (r : Result DbError AppJob) → create_outcome r ≢ some no_rows
  create_no_rows (ok j) h = absurd (ground arith)
  create_no_rows (err no_rows) h = absurd (ground arith)
  create_no_rows (err constraint) h = absurd (ground arith)
  create_no_rows (err unavailable) h = absurd (ground arith)

  -- A loop over the regions that does not abort the transaction has no error.
  not_aborted : (e : Option DbError) → e ≢ some no_rows → aborts e ≡ none → e ≡ none
  not_aborted none n h = refl
  not_aborted (some no_rows) n h = absurd (n refl)
  not_aborted (some constraint) n h = absurd (ground arith)
  not_aborted (some unavailable) n h = absurd (ground arith)

  regions_no_rows :
      (m : AppMonitor) (at window : ℕ) (regions : List String) (jobs : List AppJob)
      → (schedule_regions gen now m at window regions jobs).0 ≢ some no_rows
  unfolding schedule_regions
  regions_no_rows m at window [] jobs h = absurd (ground arith)
  regions_no_rows m at window (region ∷ regions) jobs h =
      let p = job_params gen m at region in
      let (created, jobs') = create_job_idempotent now p (at - window) (at + window) jobs in
      elim (Option-cases (create_outcome created)) [
        | inl e ↦ regions_no_rows m at window regions jobs' (rw (e, schedule_regions) at h)
        | inr (x, e) ↦ let h' = rw (e, schedule_regions) at h in create_no_rows created (e ∙ h')
      ]

  monitor_keeps :
      (q : AppJob → Bool) (m : AppMonitor) (t : Tables)
      → any q t.jobs ≡ true
      → any q (schedule_monitor_tx gen hash now m t).1.jobs ≡ true
  unfolding schedule_monitor_tx
  monitor_keeps q m t h =
      let at = scheduled_instant now m.next_due_at in
      let window = calculate_dedup_window (base_interval m.interval_ms) in
      let kept = schedule_keeps gen q now m at window m.regions t.jobs h in
      elim (Option-cases (schedule_regions gen now m at window m.regions t.jobs).0) [
        | inl e ↦ rw (e, schedule_monitor_tx) kept
        | inr (x, e) ↦ rw (e, schedule_monitor_tx) kept
      ]

  all_keeps :
      (q : AppJob → Bool) (monitors : List AppMonitor) (t : Tables)
      → any q t.jobs ≡ true
      → any q (schedule_all gen hash now monitors t).1.jobs ≡ true
  unfolding schedule_all
  all_keeps q [] t h = h
  all_keeps q (m ∷ monitors) t h =
      let (failed, t') = schedule_monitor_tx gen hash now m t in
      let h' = monitor_keeps q m t h in
      elim (Option-cases (aborts failed)) [
        | inl e ↦ rw (e, schedule_all) (all_keeps q monitors t' h')
        | inr (x, e) ↦ rw (e, schedule_all) h'
      ]

  -- A monitor that does not abort the transaction has all its regions gone through.
  pub regions_end :
      (m : AppMonitor) (t : Tables)
      → aborts (schedule_monitor_tx gen hash now m t).0 ≡ none
      → (schedule_regions gen now m
          (scheduled_instant now m.next_due_at)
          (calculate_dedup_window (base_interval m.interval_ms))
          m.regions
          t.jobs).0
        ≡ none
  unfolding schedule_monitor_tx
  regions_end m t h =
      let at = scheduled_instant now m.next_due_at in
      let window = calculate_dedup_window (base_interval m.interval_ms) in
      elim (Option-cases (schedule_regions gen now m at window m.regions t.jobs).0) [
        | inl e ↦ e
        | inr (x, e) ↦
            let h' = rw (e, schedule_monitor_tx) at h in
            let none_left =
              not_aborted (some x)
                (subst (λ o. o ≢ some no_rows) e (regions_no_rows m at window m.regions t.jobs))
                h' in
            absurd (ground arith)
      ]

  monitor-IsScheduled :
      (m : AppMonitor) (t : Tables)
      → aborts (schedule_monitor_tx gen hash now m t).0 ≡ none
      → IsScheduled (schedule_monitor_tx gen hash now m t).1.jobs m
  unfolding schedule_monitor_tx
  monitor-IsScheduled m t h =
      let at = scheduled_instant now m.next_due_at in
      let window = calculate_dedup_window (base_interval m.interval_ms) in
      let e = regions_end m t h in
      rw (e, schedule_monitor_tx) (schedule_covers gen now m at window m.regions t.jobs e)

  pub all_go_on :
      (m : AppMonitor) (monitors : List AppMonitor) (t : Tables)
      → aborts (schedule_monitor_tx gen hash now m t).0 ≡ none
      → schedule_all gen hash now (m ∷ monitors) t
        ≡ schedule_all gen hash now monitors (schedule_monitor_tx gen hash now m t).1
  unfolding schedule_all
  all_go_on m monitors t e = rw (e, schedule_all) refl

  All-IsScheduled :
      (monitors : List AppMonitor) (t : Tables)
      → (schedule_all gen hash now monitors t).0 ≡ none
      → All (IsScheduled (schedule_all gen hash now monitors t).1.jobs) monitors
  unfolding schedule_all
  All-IsScheduled [] t h = tt
  All-IsScheduled (m ∷ monitors) t h =
      let (failed, t') = schedule_monitor_tx gen hash now m t in
      elim (Option-cases (aborts failed)) [
        | inl e ↦
            let on = all_go_on m monitors t e in
            subst (λ r. All (IsScheduled r.1.jobs) (m ∷ monitors)) (sym on)
              (
                All-imp _ _ (λ region covered. all_keeps _ monitors t' covered) m.regions
                    (monitor-IsScheduled m t e),
                All-IsScheduled monitors t' (sym (ap (λ r. r.0) on) ∙ h),
              )
        | inr (x, e) ↦ let h' = rw (e, schedule_all) at h in absurd (ground arith)
      ]

  -- An iteration of the scheduler is all or nothing: either it leaves the tables as they are, or in the
  -- table that it leaves each region of each monitor that was due (and is not locked) has an open job of that
  -- monitor within the deduplication window of the instant at which the monitor is scheduled.
  pub iteration_schedules :
      (locked : String → Bool) (t : Tables)
      → (schedule_iteration gen hash now locked t ≡ t)
        ⊎ All
            (IsScheduled (schedule_iteration gen hash now locked t).jobs)
            (list_due_monitors (now + look_ahead) locked t.monitors)
  unfolding schedule_iteration
  iteration_schedules locked t =
      let due = list_due_monitors (now + look_ahead) locked t.monitors in
      elim (Option-cases (schedule_all gen hash now due t).0) [
        | inl e ↦ inr (rw (e, schedule_iteration) (All-IsScheduled due t e))
        | inr (x, e) ↦ inl (rw (e, schedule_iteration) refl)
      ]
