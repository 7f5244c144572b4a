-- ===== src/ControlPlane/Scheduler/Pace.antt =====
-- When a monitor is due again after an iteration of the scheduler (internal/app/control-plane/scheduler.go).
use mathlib.Core.List.{Mem}
use openseer.Base.{
  ℕ, ◌+◌, ◌*◌, ◌≤◌, String, ◌≡◌, refl, sym, ap, ◌∙◌, subst, ◌⊎◌, inl, inr, Bool, true, false, none,
  some, List, [], ◌∷◌, arith, Bool-cases, Option-cases, All, find, All-of_forall, All-imp, All-Mem,
  All-zip, string_eq, nat_eq, ◌==◌, str_eq_iff,
}
use openseer.Base.Int.{ℤ, pos, add_duration}
use openseer.ControlPlane.Scheduler.{
  scheduled_instant, base_interval, Tables, schedule_monitor_tx, aborts, schedule_all, look_ahead,
  schedule_iteration,
}
use openseer.ControlPlane.Scheduler.Timing.{jittered, apply_jitter, jitter_bounds}
use openseer.Store.Monitors.{
  AppMonitor, list_due_monitors, set_where, update_one, update_monitor_scheduling_time,
}
use openseer.ControlPlane.Scheduler.Iteration.{regions_end, all_go_on}

find-none-All {ℓ} :
    {A : Type ℓ} (p : A → Bool) (xs : List A) → find p xs ≡ none → All (λ x. p x ≡ false) xs
find-none-All p [] h = tt
find-none-All p (x ∷ xs) h = elim (Bool-cases (p x)) [
  | inl e ↦ let h' = rw e at h in absurd (ground arith)
  | inr e ↦ (e, find-none-All p xs (rw e at h))
]

-- What an UPDATE gives the rows that it changes and the others have, all rows have.
update_one-All :
    (P : AppMonitor → Type 0) (p : AppMonitor → Bool) (f : AppMonitor → AppMonitor)
    → ((x : AppMonitor) → p x ≡ true → P (f x))
    → (xs : List AppMonitor) → All (λ x. p x ≡ false → P x) xs
    → All P (update_one p f xs).1
unfolding update_one
update_one-All P p f gives xs h = elim (Option-cases (find p xs)) [
  | inl e ↦ rw (e, update_one) (All-zip _ _ _ (λ x miss k. k miss) xs (find-none-All p xs e) h)
  | inr (y, e) ↦ rw (e, update_one) (rows xs h)
]
  where
    rows : (ys : List AppMonitor) → All (λ x. p x ≡ false → P x) ys → All P (set_where p f ys)
    rows [] k = tt
    rows (x ∷ ys) k =
        (elim (Bool-cases (p x)) [ inl e ↦ rw e (gives x e) | inr e ↦ rw e (k.0 e) ], rows ys k.1)

module _ (gen : String → String → ℕ → String) (hash : String → ℤ → ℕ) (now : ℕ) where
  -- Where the schedule of a monitor puts its next instant.
  abbrev pub due_after : AppMonitor → ℕ
  due_after m =
      add_duration (scheduled_instant now m.next_due_at)
        (apply_jitter (hash m.id m.jitter_seed) (base_interval m.interval_ms))

  module _ (due : List AppMonitor) where
    -- The row is next due where the schedule of one of the due monitors, of its id, puts it.
    abbrev pub IsMoved : AppMonitor → Type 0
    IsMoved x = (m : AppMonitor) × Mem m due × (m.id ≡ x.id) × (x.next_due_at ≡ some (due_after m))

    abbrev pub AreMoved : String → List AppMonitor → Type 0
    AreMoved id = All (λ x. x.id ≡ id → IsMoved x)

    update-AreMoved :
        (id : String) (m : AppMonitor) (monitors : List AppMonitor)
        → Mem m due
        → All (λ x. (x.id == m.id) ≡ false → x.id ≡ id → IsMoved x) monitors
        → AreMoved id
            (update_monitor_scheduling_time now m.id
              (scheduled_instant now m.next_due_at)
              (due_after m)
              monitors).1
    unfolding update_monitor_scheduling_time
    update-AreMoved id m monitors mem h =
        update_one-All (λ x. x.id ≡ id → IsMoved x) (λ x. x.id == m.id) _
          (λ x e same. (m, mem, sym ((str_eq_iff x.id m.id).0 e), refl)) monitors h

    monitor-AreMoved :
        (id : String) (m : AppMonitor) (t : Tables)
        → Mem m due
        → aborts (schedule_monitor_tx gen hash now m t).0 ≡ none
        → All (λ x. (x.id == m.id) ≡ false → x.id ≡ id → IsMoved x) t.monitors
        → AreMoved id (schedule_monitor_tx gen hash now m t).1.monitors
    unfolding schedule_monitor_tx
    monitor-AreMoved id m t mem on h =
        rw (regions_end gen hash now m t on, schedule_monitor_tx)
          (update-AreMoved id m t.monitors mem h)

    All-AreMoved :
        (id : String) (monitors : List AppMonitor) (t : Tables)
        → All (λ m. Mem m due) monitors
        → (schedule_all gen hash now monitors t).0 ≡ none
        → AreMoved id t.monitors
        → AreMoved id (schedule_all gen hash now monitors t).1.monitors
    unfolding schedule_all
    All-AreMoved id [] t mem ends h = h
    All-AreMoved id (m ∷ monitors) t mem ends h =
        let (failed, t') = schedule_monitor_tx gen hash now m t in
        elim (Option-cases (aborts failed)) [
          | inl e ↦
              let on = all_go_on gen hash now m monitors t e in
              subst (λ r. AreMoved id r.1.monitors) (sym on)
                (All-AreMoved id monitors t' mem.1 (sym (ap (λ r. r.0) on) ∙ ends)
                  (monitor-AreMoved id m t mem.0 e (All-imp _ _ (λ x k miss. k) t.monitors h)))
          | inr (x, e) ↦ let h' = rw (e, schedule_all) at ends in absurd (ground arith)
        ]

    each-AreMoved :
        (monitors : List AppMonitor) (t : Tables)
        → All (λ m. Mem m due) monitors
        → (schedule_all gen hash now monitors t).0 ≡ none
        → All (λ m. AreMoved m.id (schedule_all gen hash now monitors t).1.monitors) monitors
    unfolding schedule_all
    each-AreMoved [] t mem ends = tt
    each-AreMoved (m ∷ monitors) t mem ends =
        let (failed, t') = schedule_monitor_tx gen hash now m t in
        elim (Option-cases (aborts failed)) [
          | inl e ↦
              let on = all_go_on gen hash now m monitors t e in
              let ends' = sym (ap (λ r. r.0) on) ∙ ends in
              subst (λ r. All (λ k. AreMoved k.id r.1.monitors) (m ∷ monitors)) (sym on)
                (
                  All-AreMoved m.id monitors t' mem.1 ends' (
                      monitor-AreMoved m.id m t mem.0 e (
                        All-of_forall _
                          (λ x miss same. absurd (ground (arith, str_eq_iff x.id m.id)))
                          t.monitors)),
                  each-AreMoved monitors t' mem.1 ends',
                )
          | inr (x, e) ↦ let h' = rw (e, schedule_all) at ends in absurd (ground arith)
        ]

  due_bounds :
      (m : AppMonitor) (ms : ℕ)
      → m.interval_ms ≡ pos ms
      → (10 * scheduled_instant now m.next_due_at + 9 * (ms * 1_000_000) ≤ 10 * due_after m)
        × (10 * due_after m ≤ 10 * scheduled_instant now m.next_due_at + 11 * (ms * 1_000_000))
  unfolding apply_jitter
  due_bounds m ms e =
      let at = scheduled_instant now m.next_due_at in
      let h = hash m.id m.jitter_seed in
      let bounds = jitter_bounds h (ms * 1_000_000) (jittered h (ms * 1_000_000)) refl in
      rw e (omega (arith, bounds.0), omega (arith, bounds.1))

  -- The row is next due an interval after the instant at which one of the due monitors, of its id, is
  -- scheduled, a tenth of the interval more or less.
  abbrev pub IsPaced : List AppMonitor → AppMonitor → Type 0
  IsPaced due x =
      (m : AppMonitor) × (d : ℕ) × Mem m due
      × (m.id ≡ x.id)
      × (x.next_due_at ≡ some d)
      × ((ms : ℕ)
          → m.interval_ms ≡ pos ms
          → (10 * scheduled_instant now m.next_due_at + 9 * (ms * 1_000_000) ≤ 10 * d)
            × (10 * d ≤ 10 * scheduled_instant now m.next_due_at + 11 * (ms * 1_000_000)))

  -- An iteration of the scheduler leaves the tables as they are, or it moves each monitor that was due (and
  -- is not locked): the rows of its id are next due one interval after the instant at which it is scheduled,
  -- give or take a tenth of the interval. An interval that is not positive is left out of the bounds.
  pub iteration_paces :
      (locked : String → Bool) (t : Tables)
      → let due = list_due_monitors (now + look_ahead) locked t.monitors in
        (schedule_iteration gen hash now locked t ≡ t)
        ⊎ All
            (λ m.
              All
                (λ x. x.id ≡ m.id → IsPaced due x)
                (schedule_iteration gen hash now locked t).monitors)
            due
  unfolding schedule_iteration
  iteration_paces locked t =
      let due = list_due_monitors (now + look_ahead) locked t.monitors in
      elim (Option-cases (schedule_all gen hash now due t).0) [
        | inl e ↦ inr (
            rw (e, schedule_iteration)
              (All-imp _ _
                (λ m moved.
                  All-imp _ _
                    (λ x k same.
                      let (v, mem, of_id, at) = k same in
                      (v, due_after v, mem, of_id, at, due_bounds v))
                    (schedule_all gen hash now due t).1.monitors moved)
                due (each-AreMoved due due t (All-Mem due) e)))
        | inr (x, e) ↦ inl (rw (e, schedule_iteration) refl)
      ]
