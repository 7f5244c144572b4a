-- ===== src/Store/Jobs/Invariant.antt =====
-- What holds of app.jobs after any sequence of statements of JobOp, and what becomes of one job.
use openseer.Base.{ℕ, refl, inl, inr, Bool, List, [], ◌∷◌, Bool-cases, Option-cases, All, any, find}
use openseer.Store.Jobs.{
  AppJob, update_one, CreateJobParams, new_job, clashes, create_job, in_window,
  create_job_idempotent, lease_jobs_with_fallback, renew_lease, complete_job,
  reclaim_expired_leases, delete_done_jobs_before, delete_monitor_jobs,
}
use openseer.Store.Jobs.Table.{
  Distinct, KeepsRun, update_where-Distinct, append_row-Distinct, filter-Distinct, no_clash,
}
use openseer.Store.Jobs.Lifecycle.{
  JobOp, create, create_idempotent, lease, renew, complete, reclaim, clean, delete_open, apply,
  apply_all, HasShape, Move, stay, take_up, extend, finish, give_back, withdraw, Created, Evolves,
  same, row, drop, added,
}
use openseer.Store.Jobs.Moves.{apply-Evolves}

pub record IsTable (jobs : List AppJob) : Type 0 where
  pub distinct : Distinct jobs
  pub shaped : All HasShape jobs

Move-HasShape : (now : ℕ) (j k : AppJob) → Move now j k → HasShape j → HasShape k
Move-HasShape now j k (stay e) h = rw e h
Move-HasShape now j k (take_up w t s d b e) h = rw e tt
Move-HasShape now j k (extend w t s o e) h = rw (e, s, o) tt
Move-HasShape now j k (finish w s o e) h = rw (e, o) tt
Move-HasShape now j k (give_back t s l b e) h = rw e tt
Move-HasShape now j k (withdraw n d e) h = rw e h

Created-HasShape : (now : ℕ) (op : JobOp) (j : AppJob) → Created now op j → HasShape j
Created-HasShape now (create p) j c = rw c tt
Created-HasShape now (create_idempotent p start end_at) j c = rw c tt
Created-HasShape now (lease locked p) j c = absurd c
Created-HasShape now (renew run_id worker_id expires) j c = absurd c
Created-HasShape now (complete run_id worker_id) j c = absurd c
Created-HasShape now reclaim j c = absurd c
Created-HasShape now (clean cutoff limit) j c = absurd c
Created-HasShape now (delete_open monitor_id) j c = absurd c

Evolves-shaped :
    {now : ℕ} {op : JobOp} {jobs rows : List AppJob}
    → Evolves now op jobs rows
    → All HasShape jobs
    → All HasShape rows
Evolves-shaped same h = tt
Evolves-shaped {now} (row {j = j} {k = k} m rest) h =
    (Move-HasShape now j k m h.0, Evolves-shaped rest h.1)
Evolves-shaped (drop d rest) h = Evolves-shaped rest h.1
Evolves-shaped {now} {op} (added {j = j} c) h = (Created-HasShape now op j c, tt)

create_job-Distinct :
    (now : ℕ) (p : CreateJobParams) (jobs : List AppJob)
    → Distinct jobs
    → Distinct (create_job now p jobs).1
unfolding create_job
create_job-Distinct now p jobs d = elim (Bool-cases (any (clashes (new_job now p)) jobs)) [
  | inl e ↦ rw e d
  | inr e ↦ rw e (append_row-Distinct (new_job now p) jobs (no_clash (new_job now p) jobs e) d)
]

create_job_idempotent-Distinct :
    (now : ℕ) (p : CreateJobParams) (start end_at : ℕ) (jobs : List AppJob)
    → Distinct jobs
    → Distinct (create_job_idempotent now p start end_at jobs).1
unfolding create_job_idempotent
create_job_idempotent-Distinct now p start end_at jobs d =
    elim (Bool-cases (any (in_window p start end_at) jobs)) [
      | inl e ↦ rw e d
      | inr e ↦ rw e (create_job-Distinct now p jobs d)
    ]

update_one-Distinct :
    (p : AppJob → Bool) (f : AppJob → AppJob)
    → KeepsRun f
    → (jobs : List AppJob) → Distinct jobs
    → Distinct (update_one p f jobs).1
unfolding update_one
update_one-Distinct p f keeps jobs d = elim (Option-cases (find p jobs)) [
  | inl e ↦ rw (e, update_one) d
  | inr (j, e) ↦ rw (e, update_one) (update_where-Distinct p f keeps jobs d)
]

pub apply-Distinct :
    (now : ℕ) (op : JobOp) (jobs : List AppJob) → Distinct jobs → Distinct (apply now op jobs)
unfolding apply lease_jobs_with_fallback renew_lease complete_job reclaim_expired_leases
    delete_done_jobs_before delete_monitor_jobs
apply-Distinct now (create p) jobs d = create_job-Distinct now p jobs d
apply-Distinct now (create_idempotent p start end_at) jobs d =
    create_job_idempotent-Distinct now p start end_at jobs d
apply-Distinct now (lease locked p) jobs d = update_where-Distinct _ _ (λ j. refl) jobs d
apply-Distinct now (renew run_id worker_id expires) jobs d =
    update_one-Distinct _ _ (λ j. refl) jobs d
apply-Distinct now (complete run_id worker_id) jobs d = update_one-Distinct _ _ (λ j. refl) jobs d
apply-Distinct now reclaim jobs d = update_where-Distinct _ _ (λ j. refl) jobs d
apply-Distinct now (clean cutoff limit) jobs d = filter-Distinct _ jobs d
apply-Distinct now (delete_open monitor_id) jobs d = update_where-Distinct _ _ (λ j. refl) jobs d

pub apply-IsTable :
    (now : ℕ) (op : JobOp) (jobs : List AppJob) → IsTable jobs → IsTable (apply now op jobs)
apply-IsTable now op jobs t = record {
  distinct = apply-Distinct now op jobs t.distinct;
  shaped = Evolves-shaped (apply-Evolves now op jobs t.distinct) t.shaped;
}

-- From a table with distinct run ids in which a ready job has no owner and no deadline, a leased
-- one has both, and a done one has an owner and no deadline, every sequence of statements of JobOp,
-- which leaves out LeaseJobs and ForceExpireJobLease, leads to such a table.
pub apply_all-IsTable :
    (ops : List (ℕ × JobOp)) (jobs : List AppJob) → IsTable jobs → IsTable (apply_all ops jobs)
unfolding apply_all
apply_all-IsTable [] jobs t = t
apply_all-IsTable ((now, op) ∷ ops) jobs t =
    apply_all-IsTable ops (apply now op jobs) (apply-IsTable now op jobs t)
