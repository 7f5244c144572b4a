-- ===== src/Store/Jobs/Moves.antt =====
-- Each statement of JobOp, all of jobs.sql.go that change app.jobs but LeaseJobs and
-- ForceExpireJobLease, makes only the moves of a job's life.
use openseer.Store.Jobs.Table.{Distinct, chosen_pass}
use openseer.Store.Jobs.Lifecycle.{
  JobOp, create, create_idempotent, lease, renew, complete, reclaim, clean, delete_open, apply,
  Move, stay, take_up, extend, finish, give_back, withdraw, Evolves, same, row, drop, added,
  Created, Dropped,
}
use openseer.Base.{
  ℕ, String, ◌≡◌, refl, inl, inr, Bool, true, not, Option, none, some, List, [], ◌∷◌, ◌++◌, arith,
  Bool-cases, Option-cases, string_eq, str_eq_iff, filter, find, any, All, All-imp, take,
  All-of_forall,
}
use openseer.Store.Jobs.{
  AppJob, ready, leased, update_where, update_one, among, CreateJobParams, create_job,
  create_job_idempotent, LeaseJobsParams, lease_jobs_with_fallback, lease_row, renew_lease,
  complete_job, reclaim_expired_leases, delete_done_jobs_before, delete_monitor_jobs, clashes,
  in_window, can_lease, pick, owns_lease, is_reclaimable, held_by, is_old, new_job, before, sort,
  older,
}

pub held_by-eq : (w : String) (o : Option String) → held_by w o ≡ true → o ≡ some w
held_by-eq w none h = cc
held_by-eq w (some v) h = ground (arith, str_eq_iff v w)

module _ (now : ℕ) (op : JobOp) where
  stay_all : (jobs : List AppJob) → Evolves now op jobs jobs
  stay_all [] = same
  stay_all (j ∷ jobs) = row (stay refl) (stay_all jobs)

  add_row :
      (n : AppJob) (jobs : List AppJob) → Created now op n → Evolves now op jobs (jobs ++ n ∷ [])
  add_row n [] c = added c
  add_row n (j ∷ jobs) c = row (stay refl) (add_row n jobs c)

  Move-rows :
      (p : AppJob → Bool) (f : AppJob → AppJob) (jobs : List AppJob)
      → All (λ j. p j ≡ true → Move now j (f j)) jobs
      → Evolves now op jobs (update_where p f jobs)
  Move-rows p f [] moves = same
  Move-rows p f (j ∷ jobs) moves =
      row (elim (Bool-cases (p j)) [ inl e ↦ rw e (moves.0 e) | inr e ↦ rw e (stay refl) ])
        (Move-rows p f jobs moves.1)

  Move-one :
      (p : AppJob → Bool) (f : AppJob → AppJob) (jobs : List AppJob)
      → ((j : AppJob) → p j ≡ true → Move now j (f j))
      → Evolves now op jobs (update_one p f jobs).1
  unfolding update_one
  Move-one p f jobs moves = elim (Option-cases (find p jobs)) [
    | inl e ↦ rw (e, update_one) (stay_all jobs)
    | inr (j, e) ↦ rw (e, update_one) (Move-rows p f jobs (All-of_forall _ moves jobs))
  ]

  drop_rows :
      (p : AppJob → Bool) (jobs : List AppJob)
      → All (λ j. p j ≡ true → Dropped op j) jobs
      → Evolves now op jobs (filter (λ j. not (p j)) jobs)
  drop_rows p [] old = same
  drop_rows p (j ∷ jobs) old = elim (Bool-cases (p j)) [
    | inl e ↦ rw e (drop (old.0 e) (drop_rows p jobs old.1))
    | inr e ↦ rw e (row (stay refl) (drop_rows p jobs old.1))
  ]

  create_job-Evolves :
      (p : CreateJobParams) (jobs : List AppJob)
      → Created now op (new_job now p)
      → Evolves now op jobs (create_job now p jobs).1
  unfolding create_job
  create_job-Evolves p jobs c = elim (Bool-cases (any (clashes (new_job now p)) jobs)) [
    | inl e ↦ rw e (stay_all jobs)
    | inr e ↦ rw e (add_row (new_job now p) jobs c)
  ]

  create_job_idempotent-Evolves :
      (p : CreateJobParams) (start end_at : ℕ) (jobs : List AppJob)
      → Created now op (new_job now p)
      → Evolves now op jobs (create_job_idempotent now p start end_at jobs).1
  unfolding create_job_idempotent
  create_job_idempotent-Evolves p start end_at jobs c =
      elim (Bool-cases (any (in_window p start end_at) jobs)) [
        | inl e ↦ rw e (stay_all jobs)
        | inr e ↦ rw e (create_job-Evolves p jobs c)
      ]

module _ (now : ℕ) where
  lease-Move :
      (locked : String → Bool) (p : LeaseJobsParams) (j : AppJob)
      → can_lease now locked p.region j ≡ true
      → Move now j (lease_row p j)
  unfolding can_lease
  lease-Move locked p j h =
      take_up p.worker_id p.lease_expires_at (ground arith) (ground arith) (ground arith) refl

  owner_of :
      (run_id worker_id : String) (j : AppJob)
      → owns_lease run_id worker_id j ≡ true
      → (j.status ≡ leased) × (j.worker_id ≡ some worker_id)
  owner_of run_id worker_id j h = ground (arith, held_by-eq worker_id j.worker_id)

  reclaim-Move :
      (j : AppJob)
      → is_reclaimable now j ≡ true
      → Move now j (record j { status = ready; lease_expires_at = none; worker_id = none })
  reclaim-Move j h = elim (Option-cases j.lease_expires_at) [
    | inl e ↦ absurd (ground arith)
    | inr (t, e) ↦ give_back t (ground arith) e (ground arith) refl
  ]

  pub apply-Evolves :
      (op : JobOp) (jobs : List AppJob) → Distinct jobs → Evolves now op jobs (apply now op jobs)
  unfolding apply lease_jobs_with_fallback pick renew_lease complete_job reclaim_expired_leases
      delete_done_jobs_before delete_monitor_jobs
  apply-Evolves (create p) jobs d = create_job-Evolves now (create p) p jobs refl
  apply-Evolves (create_idempotent p start end_at) jobs d =
      create_job_idempotent-Evolves now (create_idempotent p start end_at) p start end_at jobs refl
  apply-Evolves (lease locked p) jobs d =
      Move-rows now _ (among (pick now locked p jobs)) (lease_row p) jobs (
        All-imp _ _ (λ j h e. lease-Move locked p j (h e)) jobs
          (chosen_pass (can_lease now locked p.region) (before p.region) p.limit jobs d))
  apply-Evolves (renew run_id worker_id expires) jobs d =
      Move-one now _ (owns_lease run_id worker_id) _ jobs
        (λ j h. let (l, w) = owner_of run_id worker_id j h in extend worker_id expires l w refl)
  apply-Evolves (complete run_id worker_id) jobs d =
      Move-one now _ (owns_lease run_id worker_id) _ jobs
        (λ j h. let (l, w) = owner_of run_id worker_id j h in finish worker_id l w refl)
  apply-Evolves reclaim jobs d =
      Move-rows now _ (is_reclaimable now) _ jobs (All-of_forall _ reclaim-Move jobs)
  apply-Evolves (clean cutoff limit) jobs d =
      drop_rows now _ (among (take limit (sort older (filter (is_old cutoff) jobs)))) jobs
        (chosen_pass (is_old cutoff) older limit jobs d)
  apply-Evolves (delete_open monitor_id) jobs d =
      Move-rows now _ _ _ jobs
        (All-of_forall _ (λ j h. withdraw (ground arith) (ground arith) refl) jobs)
