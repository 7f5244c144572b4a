-- ===== src/ControlPlane/WorkerService/Served.antt =====
use mathlib.Core.Option
use openseer.Base.{
  ℕ, ◌+◌, String, ◌≡◌, refl, sym, ap, ◌∙◌, subst, ◌⊎◌, inl, inr, Bool, true, ◌&&◌, some, List, [],
  ◌∷◌, map, arith, Bool-cases, Option-cases, is_some, is_none, All, length, filter, any, find,
  All-imp, All-of_map, string_eq, nat_eq, ◌==◌, str_eq_self, Result, ok,
}
use openseer.ControlPlane.WorkerService.{
  Code, State, heartbeat_query, touch_worker_heartbeat, MonitorJob, monitor_job, lease_query,
  jobs_outcome, lease_for, get_jobs,
}
use openseer.Store.Dispatch.{join_monitors, lease_jobs_with_monitor_data}
use openseer.Store.Jobs.{
  AppJob, LeaseJobsParams, can_lease, pick, lease_row, lease_jobs_with_fallback,
}
use openseer.Store.Monitors.{AppMonitor}
use openseer.Store.Workers.{active, AppWorker, has_id, get_worker_by_id, update_worker_heartbeat}
use openseer.ControlPlane.Heartbeats.{should_update}
use openseer.Store.Db.{Database, Db, statement, statement_served, value_or}
use openseer.ControlPlane.WorkerService.Polling.{IsLeasedTo, after_heartbeat-db}
use openseer.Base.Int.{ℤ, positive_or}
use openseer.Store.Errors.{DbError}
use openseer.Store.Jobs.Leasing.{pick_covers}
use openseer.Store.Jobs.Polls.{poll_returns}
use openseer.Store.Jobs.Table.{Distinct}

-- GetJobs of internal/app/control-plane/api/worker/service.go on a database that answers.

abbrev pub has_monitor : List AppMonitor → AppJob → Bool
has_monitor monitors j = is_some (find (λ m. m.id == j.monitor_id && is_none m.deleted_at) monitors)

abbrev pub names : List MonitorJob → AppJob → Bool
names jobs j = any (λ m. m.run_id == j.run_id) jobs

any_later :
    (q : MonitorJob → Bool) (x : MonitorJob) (xs : List MonitorJob)
    → any q xs ≡ true
    → any q (x ∷ xs) ≡ true
any_later q x xs h = ground arith

module _ (p : LeaseJobsParams) (monitors : List AppMonitor) where
  abbrev answered : List AppJob → List MonitorJob
  answered rows = map monitor_job (join_monitors monitors (map (lease_row p) rows))

  answered_more :
      (q : MonitorJob → Bool) (k : AppJob) (rows : List AppJob)
      → any q (answered rows) ≡ true
      → any q (answered (k ∷ rows)) ≡ true
  unfolding join_monitors
  answered_more q k rows h =
      elim (Option-cases (find (λ m. m.id == k.monitor_id && is_none m.deleted_at) monitors)) [
        | inl e ↦ rw (e, join_monitors) h
        | inr (m, e) ↦ rw (e, join_monitors) (any_later q _ (answered rows) h)
      ]

  answered_first :
      (k : AppJob) (rows : List AppJob)
      → has_monitor monitors k ≡ true
      → names (answered (k ∷ rows)) k ≡ true
  unfolding join_monitors
  answered_first k rows h =
      elim (Option-cases (find (λ m. m.id == k.monitor_id && is_none m.deleted_at) monitors)) [
        | inl e ↦ let h' = rw e at h in absurd (ground arith)
        | inr (m, e) ↦ rw (e, join_monitors) (ground (arith, str_eq_self k.run_id))
      ]

  answered-All :
      (rows : List AppJob)
      → All (λ k. has_monitor monitors k ≡ true → names (answered rows) k ≡ true) rows
  answered-All [] = tt
  answered-All (k ∷ rows) = (
    answered_first k rows,
    All-imp _ _ (λ x n h. answered_more _ k rows (n h)) rows (answered-All rows),
  )

heartbeat-find :
    (now : ℕ) (id : String) (workers : List AppWorker) {v : AppWorker}
    → find (has_id id) workers ≡ some v
    → (x : AppWorker) × (find (has_id id) (update_worker_heartbeat now id workers) ≡ some x)
      × (x.region ≡ v.region)
unfolding update_worker_heartbeat
heartbeat-find now id [] h = absurd (ground arith)
heartbeat-find now id (w ∷ workers) {v} h = elim (Bool-cases (w.id == id)) [
  | inl e ↦ rw e (
      rw e (
        record w { last_seen_at = now; status = active },
        refl,
        ap (λ r. (Option.get_or r w).region) (rw e at h),
      ))
  | inr e ↦ rw e (rw e (heartbeat-find now id workers (rw e at h)))
]

by_id-find :
    (id : String) (workers : List AppWorker) {v : AppWorker}
    → get_worker_by_id id workers ≡ ok v
    → find (has_id id) workers ≡ some v
unfolding get_worker_by_id
by_id-find id workers h = elim (Option-cases (find (has_id id) workers)) [
  | inl e ↦ let h' = rw (e, get_worker_by_id) at h in absurd (ground arith)
  | inr (x, e) ↦ e ∙ ap (λ r. some (value_or x r)) (rw (e, get_worker_by_id) at h)
]

find-by_id :
    (id : String) (workers : List AppWorker) {v : AppWorker}
    → find (has_id id) workers ≡ some v
    → get_worker_by_id id workers ≡ ok v
unfolding get_worker_by_id
find-by_id id workers h = rw (h, get_worker_by_id) refl

-- The worker that a lookup by id finds after a heartbeat is of the region that it was of.
heartbeat-region :
    (now : ℕ) (id : String) (workers : List AppWorker) {v : AppWorker}
    → get_worker_by_id id workers ≡ ok v
    → (x : AppWorker) × (get_worker_by_id id (update_worker_heartbeat now id workers) ≡ ok x)
      × (x.region ≡ v.region)
heartbeat-region now id workers h =
    let (x, found_it, same) = heartbeat-find now id workers (by_id-find id workers h) in
    (x, find-by_id id (update_worker_heartbeat now id workers) found_it, same)

-- The database answers, and is the old one but for the heartbeat of the worker.
abbrev pub IsSteady : String → String → Database → Database → Type 0
IsSteady id region s d =
    (d.faults ≡ [])
    × (d.jobs ≡ s.jobs)
    × (d.monitors ≡ s.monitors)
    × (d.clock ≡ s.clock)
    × ((x : AppWorker) × (get_worker_by_id id d.workers ≡ ok x) × (x.region ≡ region))

touched-IsSteady :
    (id : String) (s : State) {v : AppWorker}
    → s.db.faults ≡ []
    → get_worker_by_id id s.db.workers ≡ ok v
    → IsSteady id v.region s.db (touch_worker_heartbeat id s).db
unfolding touch_worker_heartbeat
touched-IsSteady id s {v} none_left h =
    elim (Bool-cases (should_update s.db.clock id s.service.heartbeats).0) [
      | inl e ↦
          rw
            (
              e,
              after_heartbeat-db id (statement (heartbeat_query id) s.db).0,
              statement_served (heartbeat_query id) s.db none_left,
            )
            (refl, refl, refl, refl, heartbeat-region s.db.clock id s.db.workers h)
      | inr e ↦ rw e (none_left, refl, refl, refl, (v, h, refl))
    ]

-- What a poll may lease at most, with 1 for a limit that is not positive.
abbrev pub asked : String → String → ℕ → ℤ → ℕ → LeaseJobsParams
asked id region now max_jobs duration = record {
  worker_id = id;
  limit = positive_or max_jobs 1;
  region = region;
  lease_expires_at = now + duration;
}

-- A poll is answered with jobs, and each job that it picks is leased to the worker in the table `after`.
-- It picks as many as it asks for, or the answer has each job that it could lease and whose monitor is not
-- deleted.
abbrev pub Exhausts :
    (String → Bool)
    → LeaseJobsParams
    → ℕ
    → List AppMonitor
    → List AppJob
    → Result Code (List MonitorJob)
    → List AppJob
    → Type 0
Exhausts locked p now monitors jobs answer after =
    (given : List MonitorJob) × (answer ≡ ok given)
    × All (λ j. IsLeasedTo p.worker_id after j.run_id) (pick now locked p jobs)
    × ((length (pick now locked p jobs) ≡ p.limit)
        ⊎ All (λ j. has_monitor monitors j ≡ true → names given j ≡ true)
            (filter (can_lease now locked p.region) jobs))

-- The rows that a poll picks are leased to its worker in the table that it leaves.
picked-leased :
    (now : ℕ) (locked : String → Bool) (p : LeaseJobsParams) (jobs : List AppJob)
    → Distinct jobs
    → All
        (λ j. IsLeasedTo p.worker_id (lease_jobs_with_fallback now locked p jobs).1 j.run_id)
        (pick now locked p jobs)
unfolding lease_jobs_with_fallback
picked-leased now locked p jobs d =
    let after = (lease_jobs_with_fallback now locked p jobs).1 in
    All-of_map (lease_row p) (λ j. IsLeasedTo p.worker_id after j.run_id) (pick now locked p jobs)
      (All-imp _ _ (λ k h. (k, p.lease_expires_at, h.0, h.1)) _ (poll_returns now locked p jobs d))

lease_query-Exhausts :
    (locked : String → Bool) (p : LeaseJobsParams) (s : Database)
    → s.faults ≡ []
    → Distinct s.jobs
    → Exhausts locked p s.clock s.monitors s.jobs
        (jobs_outcome (statement (lease_query locked p) s).0)
        (statement (lease_query locked p) s).1.jobs
unfolding lease_jobs_with_monitor_data lease_jobs_with_fallback
lease_query-Exhausts locked p s none_left distinct =
    let rows = pick s.clock locked p s.jobs in
    (
      answered p s.monitors rows,
      rw (statement_served (lease_query locked p) s none_left) refl,
      rw (statement_served (lease_query locked p) s none_left)
          (picked-leased s.clock locked p s.jobs distinct),
      elim (pick_covers s.clock locked p s.jobs) [
        | inl full ↦ inl full
        | inr covers ↦ inr (covers _ (answered-All p s.monitors rows))
      ],
    )

lease_for-Exhausts :
    (locked : String → Bool) (max_jobs : ℤ) (id region : String) (duration : ℕ)
    (r : Result DbError AppWorker) (s d : Database)
    → (d.faults ≡ []) × (d.jobs ≡ s.jobs) × (d.monitors ≡ s.monitors) × (d.clock ≡ s.clock)
    → Distinct s.jobs
    → (x : AppWorker) × (r ≡ ok x) × (x.region ≡ region)
    → Exhausts locked
        (asked id region s.clock max_jobs duration)
        s.clock
        s.monitors
        s.jobs
        (lease_for locked max_jobs id duration r d).0
        (lease_for locked max_jobs id duration r d).1.jobs
lease_for-Exhausts locked max_jobs id region duration r s d (f, j, m, c) distinct (x, e, same) =
    let done =
      lease_query-Exhausts locked (asked id x.region d.clock max_jobs duration) d f
        (subst Distinct (sym j) distinct) in
    rw (e, j, m, c, same) (rw (j, m, c, same) at done)

-- On a database that answers, GetJobs by a worker that has a row is answered with jobs, and leaves leased
-- to the worker each job that it picks: as many as it asked for, or the answer has each job of its region
-- or of 'global' that is ready, due and not locked, and whose monitor is not deleted. The run ids are
-- distinct.
pub get_jobs-Exhausts :
    (locked : String → Bool) (max_jobs : ℤ) (id : String) (s : State) {v : AppWorker}
    → s.db.faults ≡ []
    → Distinct s.db.jobs
    → get_worker_by_id id s.db.workers ≡ ok v
    → Exhausts locked
        (asked id v.region s.db.clock max_jobs (touch_worker_heartbeat id s).service.lease_duration)
        s.db.clock
        s.db.monitors
        s.db.jobs
        (get_jobs locked max_jobs (some id) s).0
        (get_jobs locked max_jobs (some id) s).1.db.jobs
unfolding get_jobs
get_jobs-Exhausts locked max_jobs id s {v} none_left distinct h =
    let s1 = touch_worker_heartbeat id s in
    let q : Db AppWorker = λ d. (get_worker_by_id id d.workers, d) in
    let (f, j, m, c, known) = touched-IsSteady id s none_left h in
    lease_for-Exhausts locked max_jobs id v.region s1.service.lease_duration (statement q s1.db).0
      s.db (statement q s1.db).1 (rw (statement_served q s1.db f) (refl, j, m, c)) distinct
      (rw (statement_served q s1.db f) known)
