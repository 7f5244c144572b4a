-- ===== src/Store/Jobs/Exclusive.antt =====
-- While a lease runs, the job is its holder's alone.
use openseer.Base.{
  ℕ, ◌≤◌, String, ◌≡◌, refl, ◌≢◌, inl, inr, Bool, true, false, some, List, arith, Bool-cases,
  Option-cases, take, filter, any, find, All-find, str_eq_iff, ok,
}
use openseer.Base.Sort.{sort}
use openseer.Store.Jobs.{
  leased, AppJob, held_by, update_one, CreateJobParams, new_job, clashes, create_job, in_window,
  create_job_idempotent, can_lease, before, pick, among, lease_row, lease_jobs_with_fallback,
  owns_lease, renew_lease, complete_job, get_job_by_run_id, is_reclaimable, reclaim_row,
  reclaim_expired_leases, is_old, older, delete_done_jobs_before,
}
use openseer.Store.Jobs.Table.{
  has_run, Distinct, KeepsRun, find_row, row_found, find-update_where, find-append_row, find-filter,
  chosen_pass,
}
use openseer.Store.Jobs.Lifecycle.{
  JobOp, create, create_idempotent, lease, renew, complete, reclaim, clean, delete_open, apply,
}

-- The statements that do not act for the worker `w`, and do not withdraw its jobs.
abbrev pub IsForeign : String → JobOp → Type 0
IsForeign w (renew run_id worker_id expires) = worker_id ≢ w
IsForeign w (complete run_id worker_id) = worker_id ≢ w
IsForeign w (delete_open monitor_id) = ⊥
IsForeign w _ = Unit

abbrev pub HoldsUntil : String → ℕ → AppJob → Type 0
HoldsUntil w e j = (j.status ≡ leased) × (j.worker_id ≡ some w) × (j.lease_expires_at ≡ some e)

pub held_by_ne : (v w : String) → v ≢ w → held_by v (some w) ≡ false
held_by_ne v w n = ground (arith, str_eq_iff w v)

owner_only : (r w v : String) (j : AppJob) → j.worker_id ≡ some w → v ≢ w → owns_lease r v j ≡ false
owner_only r w v j o n = ground (arith, held_by_ne v w n)

update_one_spares :
    (p : AppJob → Bool) (f : AppJob → AppJob)
    → KeepsRun f
    → (r : String) (jobs : List AppJob) {j : AppJob} → find (has_run r) jobs ≡ some j
    → p j ≡ false
    → find (has_run r) (update_one p f jobs).1 ≡ some j
unfolding update_one
update_one_spares p f keeps r jobs {j} h k = elim (Option-cases (find p jobs)) [
  | inl e ↦ rw (e, update_one) h
  | inr (x, e) ↦ rw (e, update_one) (rw k at (find-update_where r p f keeps jobs h))
]

module _ (r w : String) (e : ℕ) (jobs : List AppJob) {j : AppJob} (d : Distinct jobs)
    (found : find (has_run r) jobs ≡ some j) (holds : HoldsUntil w e j) where
  create_spares :
      (now : ℕ) (p : CreateJobParams) → find (has_run r) (create_job now p jobs).1 ≡ some j
  unfolding create_job
  create_spares now p = elim (Bool-cases (any (clashes (new_job now p)) jobs)) [
    | inl t ↦ rw t found
    | inr t ↦ rw t (find-append_row r (new_job now p) jobs found)
  ]

  create_idempotent_spares :
      (now : ℕ) (p : CreateJobParams) (start end_at : ℕ)
      → find (has_run r) (create_job_idempotent now p start end_at jobs).1 ≡ some j
  unfolding create_job_idempotent
  create_idempotent_spares now p start end_at =
      elim (Bool-cases (any (in_window p start end_at) jobs)) [
        | inl t ↦ rw t found
        | inr t ↦ rw t (create_spares now p)
      ]

  not_chosen :
      (q : AppJob → Bool) (first : AppJob → AppJob → Bool) (limit : ℕ)
      → q j ≡ false
      → among (take limit (sort first (filter q jobs))) j ≡ false
  not_chosen q first limit h =
      let chosen =
        All-find (λ x. among (take limit (sort first (filter q jobs))) x ≡ true → q x ≡ true)
          (has_run r) jobs (chosen_pass q first limit jobs d) found in
      elim (Bool-cases (among (take limit (sort first (filter q jobs))) j)) [
        | inl t ↦ absurd (ground (arith, chosen t))
        | inr t ↦ t
      ]

  leased_not_ready :
      (now : ℕ) (locked : String → Bool) (region : String) → can_lease now locked region j ≡ false
  unfolding can_lease
  leased_not_ready now locked region = ground arith

  spares :
      (now : ℕ) (op : JobOp)
      → now ≤ e
      → IsForeign w op
      → find (has_run r) (apply now op jobs) ≡ some j
  unfolding apply lease_jobs_with_fallback pick renew_lease complete_job reclaim_expired_leases
      delete_done_jobs_before
  spares now (create p) b f = create_spares now p
  spares now (create_idempotent p start end_at) b f = create_idempotent_spares now p start end_at
  spares now (lease locked p) b f =
      rw (not_chosen _ (before p.region) p.limit (leased_not_ready now locked p.region)) at
        (find-update_where r (among (pick now locked p jobs)) (lease_row p) (λ x. refl) jobs found)
  spares now (renew run_id v expires) b f =
      update_one_spares _ _ (λ x. refl) r jobs found (owner_only run_id w v j holds.1 f)
  spares now (complete run_id v) b f =
      update_one_spares _ _ (λ x. refl) r jobs found (owner_only run_id w v j holds.1 f)
  spares now reclaim b f =
      let kept : is_reclaimable now j ≡ false = ground arith in
      rw kept at (find-update_where r (is_reclaimable now) reclaim_row (λ x. refl) jobs found)
  spares now (clean cutoff limit) b f =
      let kept : is_old cutoff j ≡ false = ground arith in
      find-filter r _ jobs found (rw (not_chosen (is_old cutoff) older limit kept) refl)
  spares now (delete_open monitor_id) b f = absurd f

-- While the lease of `w` on a job runs (`now` is no later than its deadline), no statement made for
-- another worker, nor the scheduler's, the reaper's or the cleaner's, changes the job at all. The
-- soft delete of a monitor's jobs is left out, and so are LeaseJobs and ForceExpireJobLease. The run ids are distinct.
pub lease_exclusive :
    (now : ℕ) (op : JobOp) (r w : String) (e : ℕ) (jobs : List AppJob) {j : AppJob}
    → Distinct jobs
    → get_job_by_run_id r jobs ≡ ok j
    → HoldsUntil w e j
    → now ≤ e
    → IsForeign w op
    → get_job_by_run_id r (apply now op jobs) ≡ ok j
lease_exclusive now op r w e jobs d h holds b f =
    row_found r (apply now op jobs) (spares r w e jobs d (find_row r jobs h) holds now op b f)
