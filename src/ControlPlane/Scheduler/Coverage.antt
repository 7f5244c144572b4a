-- ===== src/ControlPlane/Scheduler/Coverage.antt =====
-- What scheduleMonitorTx of internal/app/control-plane/scheduler.go leaves in app.jobs.
use openseer.Base.{
  ℕ, ◌+◌, ◌-◌, ◌≤◌, String, ◌≡◌, refl, sym, ap, ◌∙◌, subst, inl, inr, Bool, true, none, List, [],
  ◌∷◌, arith, Bool-cases, Option-cases, All, any, any-append, str_eq_self,
}
use openseer.ControlPlane.Scheduler.{
  scheduled_instant, base_interval, job_params, create_outcome, schedule_regions, Tables,
  schedule_monitor_tx, aborts, schedule_all, look_ahead, schedule_iteration,
}
use openseer.Store.Jobs.{
  AppJob, CreateJobParams, new_job, clashes, create_job, in_window, create_job_idempotent,
}
use openseer.Store.Monitors.{AppMonitor, list_due_monitors}
use openseer.Store.Jobs.Lifecycle.{create_idempotent, apply}
use openseer.Base.Int.{ℤ}
use openseer.Store.Jobs.Table.{Distinct}
use openseer.ControlPlane.Scheduler.Timing.{calculate_dedup_window, dedup_bounds}
use openseer.Store.Jobs.Spacing.{Spaced, apply-Spaced}
use openseer.Store.Jobs.Invariant.{apply-Distinct}

-- A creation keeps the rows that are there.
create_keeps :
    (q : AppJob → Bool) (now : ℕ) (p : CreateJobParams) (s e : ℕ) (jobs : List AppJob)
    → any q jobs ≡ true
    → any q (create_job_idempotent now p s e jobs).1 ≡ true
unfolding create_job_idempotent create_job
create_keeps q now p s e jobs h = elim (Bool-cases (any (in_window p s e) jobs)) [
  | inl t ↦ rw t h
  | inr t ↦ elim (Bool-cases (any (clashes (new_job now p)) jobs)) [
    | inl t' ↦ rw (t, t') h
    | inr t' ↦ rw (t, t', any-append q jobs (new_job now p ∷ [])) (ground arith)
  ]
]

new_job-in_window :
    (now : ℕ) (p : CreateJobParams) (s e : ℕ)
    → s ≤ p.scheduled_at
    → p.scheduled_at ≤ e
    → in_window p s e (new_job now p) ≡ true
unfolding in_window
new_job-in_window now p s e h k = ground (arith, str_eq_self p.monitor_id, str_eq_self p.region)

create_covers :
    (now : ℕ) (p : CreateJobParams) (s e : ℕ) (jobs : List AppJob)
    → s ≤ p.scheduled_at
    → p.scheduled_at ≤ e
    → create_outcome (create_job_idempotent now p s e jobs).0 ≡ none
    → any (in_window p s e) (create_job_idempotent now p s e jobs).1 ≡ true
unfolding create_job_idempotent create_job
create_covers now p s e jobs h k o = elim (Bool-cases (any (in_window p s e) jobs)) [
  | inl t ↦ rw t t
  | inr t ↦ elim (Bool-cases (any (clashes (new_job now p)) jobs)) [
    | inl t' ↦ absurd (ground arith)
    | inr t' ↦
        rw (t, t', any-append (in_window p s e) jobs (new_job now p ∷ []))
          (ground (arith, new_job-in_window now p s e h k))
  ]
]

pub schedule_keeps :
    (gen : String → String → ℕ → String) (q : AppJob → Bool) (now : ℕ) (m : AppMonitor)
    (at window : ℕ) (regions : List String) (jobs : List AppJob)
    → any q jobs ≡ true
    → any q (schedule_regions gen now m at window regions jobs).1 ≡ true
unfolding schedule_regions
schedule_keeps gen q now m at window [] jobs h = h
schedule_keeps gen q now m at window (region ∷ regions) jobs h =
    let p = job_params gen m at region in
    let (created, jobs') = create_job_idempotent now p (at - window) (at + window) jobs in
    elim (Option-cases (create_outcome created)) [
      | inl e ↦
          rw (e, schedule_regions)
            (schedule_keeps gen q now m at window regions jobs'
              (create_keeps q now p (at - window) (at + window) jobs h))
      | inr (x, e) ↦
          rw (e, schedule_regions) (create_keeps q now p (at - window) (at + window) jobs h)
    ]

goes_on :
    (gen : String → String → ℕ → String) (now : ℕ) (m : AppMonitor) (at window : ℕ)
    (region : String) (regions : List String) (jobs : List AppJob)
    → create_outcome
        (create_job_idempotent now (job_params gen m at region) (at - window) (at + window) jobs).0
      ≡ none
    → schedule_regions gen now m at window (region ∷ regions) jobs
      ≡ schedule_regions gen now m at window regions
          (create_job_idempotent now
            (job_params gen m at region)
            (at - window)
            (at + window)
            jobs).1
unfolding schedule_regions
goes_on gen now m at window region regions jobs e = rw (e, schedule_regions) refl

-- A region is covered by an open job of the monitor within the window around the instant.
abbrev pub IsCovered :
    (String → String → ℕ → String) → AppMonitor → ℕ → ℕ → List AppJob → String → Type 0
IsCovered gen m at window jobs region =
    any (in_window (job_params gen m at region) (at - window) (at + window)) jobs ≡ true

-- When the loop over a monitor's regions ends without an error, each of the regions has an open job
-- of the monitor that is due within the deduplication window of the scheduled instant: a new one,
-- or one that was there.
pub schedule_covers :
    (gen : String → String → ℕ → String) (now : ℕ) (m : AppMonitor) (at window : ℕ)
    (regions : List String) (jobs : List AppJob)
    → (schedule_regions gen now m at window regions jobs).0 ≡ none
    → All (IsCovered gen m at window (schedule_regions gen now m at window regions jobs).1) regions
unfolding schedule_regions
schedule_covers gen now m at window [] jobs h = tt
schedule_covers gen now m at window (region ∷ regions) jobs h =
    let p = job_params gen m at region in
    let (created, jobs') = create_job_idempotent now p (at - window) (at + window) jobs in
    elim (Option-cases (create_outcome created)) [
      | inl e ↦
          let on = goes_on gen now m at window region regions jobs e in
          let ends : (schedule_regions gen now m at window regions jobs').0 ≡ none =
            sym (ap (λ r. r.0) on) ∙ h in
          subst (λ r. All (IsCovered gen m at window r.1) (region ∷ regions)) (sym on)
            (
              schedule_keeps gen (in_window p (at - window) (at + window)) now m at window regions
                  jobs'
                  (create_covers now p (at - window) (at + window) jobs (omega arith) (omega arith)
                    e),
              schedule_covers gen now m at window regions jobs' ends,
            )
      | inr (x, e) ↦ let h' = rw (e, schedule_regions) at h in absurd (ground arith)
    ]

schedule_regions_sound :
    (gen : String → String → ℕ → String) (w : String → ℕ) (now : ℕ) (m : AppMonitor) (at window : ℕ)
    (regions : List String) (jobs : List AppJob)
    → w m.id ≤ window
    → Distinct jobs
    → Spaced w jobs
    → Distinct (schedule_regions gen now m at window regions jobs).1
      × Spaced w (schedule_regions gen now m at window regions jobs).1
unfolding schedule_regions apply
schedule_regions_sound gen w now m at window [] jobs le d s = (d, s)
schedule_regions_sound gen w now m at window (region ∷ regions) jobs le d s =
    let p = job_params gen m at region in
    let op = create_idempotent p (at - window) (at + window) in
    let (created, jobs') = create_job_idempotent now p (at - window) (at + window) jobs in
    elim (Option-cases (create_outcome created)) [
      | inl e ↦
          let d' = apply-Distinct now op jobs d in
          let s' = apply-Spaced w now op jobs d (omega arith, omega arith) s in
          rw (e, schedule_regions)
            (schedule_regions_sound gen w now m at window regions jobs' le d' s')
      | inr (x, e) ↦
          rw (e, schedule_regions)
            (
              apply-Distinct now op jobs d,
              apply-Spaced w now op jobs d (omega arith, omega arith) s,
            )
    ]

-- The distance that each creation of the scheduler keeps, whatever the monitor's interval.
abbrev pub least_window : String → ℕ
least_window id = 500_000_000

abbrev pub IsSpread : List AppJob → Type 0
IsSpread jobs = Distinct jobs × Spaced least_window jobs

monitor-IsSpread :
    (gen : String → String → ℕ → String) (hash : String → ℤ → ℕ) (now : ℕ) (m : AppMonitor)
    (t : Tables)
    → IsSpread t.jobs
    → IsSpread (schedule_monitor_tx gen hash now m t).1.jobs
unfolding schedule_monitor_tx
monitor-IsSpread gen hash now m t h =
    let at = scheduled_instant now m.next_due_at in
    let window = calculate_dedup_window (base_interval m.interval_ms) in
    let sound =
      schedule_regions_sound gen least_window now m at window m.regions t.jobs
        (dedup_bounds (base_interval m.interval_ms)).0 h.0 h.1 in
    elim (Option-cases (schedule_regions gen now m at window m.regions t.jobs).0) [
      | inl e ↦ rw (e, schedule_monitor_tx) sound
      | inr (x, e) ↦ rw (e, schedule_monitor_tx) sound
    ]

all-IsSpread :
    (gen : String → String → ℕ → String) (hash : String → ℤ → ℕ) (now : ℕ)
    (monitors : List AppMonitor) (t : Tables)
    → IsSpread t.jobs
    → IsSpread (schedule_all gen hash now monitors t).1.jobs
unfolding schedule_all
all-IsSpread gen hash now [] t h = h
all-IsSpread gen hash now (m ∷ monitors) t h =
    let (failed, t') = schedule_monitor_tx gen hash now m t in
    let h' = monitor-IsSpread gen hash now m t h in
    elim (Option-cases (aborts failed)) [
      | inl e ↦ rw (e, schedule_all) (all-IsSpread gen hash now monitors t' h')
      | inr (x, e) ↦ rw (e, schedule_all) h'
    ]

-- An iteration of the scheduler keeps the run ids distinct and any two open jobs of one monitor and
-- region more than half a second apart, whatever the monitors' intervals are, whichever monitors
-- are locked and wherever the iteration fails.
pub iteration-IsSpread :
    (gen : String → String → ℕ → String) (hash : String → ℤ → ℕ) (now : ℕ) (locked : String → Bool)
    (t : Tables)
    → IsSpread t.jobs
    → IsSpread (schedule_iteration gen hash now locked t).jobs
unfolding schedule_iteration
iteration-IsSpread gen hash now locked t h =
    let due = list_due_monitors (now + look_ahead) locked t.monitors in
    elim (Option-cases (schedule_all gen hash now due t).0) [
      | inl e ↦ rw (e, schedule_iteration) (all-IsSpread gen hash now due t h)
      | inr (x, e) ↦ rw (e, schedule_iteration) h
    ]
