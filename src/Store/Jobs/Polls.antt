-- ===== src/Store/Jobs/Polls.antt =====
-- Two polls in a row, and the rows that a poll returns.
use openseer.Base.{
  ℕ, String, ◌≡◌, refl, ◌∙◌, inl, inr, Bool, true, false, List, [], ◌∷◌, arith, Bool-cases, All,
  All-imp, All-zip, All-map_of, any-map, ok,
}
use openseer.Store.Jobs.Leasing.{All-among, All-pick}
use openseer.Store.Jobs.{
  AppJob, update_where, LeaseJobsParams, can_lease, pick, among, lease_row,
  lease_jobs_with_fallback, get_job_by_run_id,
}
use openseer.Store.Jobs.Table.{has_run, Distinct, row_found, find-update_where, rows_found}
use openseer.Store.Jobs.Exclusive.{HoldsUntil}

leased_elsewhere :
    (now : ℕ) (locked : String → Bool) (region : String) (q : LeaseJobsParams)
    (rows jobs : List AppJob)
    → All
        (λ k. can_lease now locked region k ≡ true → among rows k ≡ false)
        (update_where (among rows) (lease_row q) jobs)
unfolding can_lease
leased_elsewhere now locked region q rows [] = tt
leased_elsewhere now locked region q rows (j ∷ jobs) = (
  elim (Bool-cases (among rows j)) [
    | inl e ↦ rw e (λ h. absurd (ground arith))
    | inr e ↦ rw e (λ h. e)
  ],
  leased_elsewhere now locked region q rows jobs,
)

-- No run id is leased by two polls in a row, whoever makes them and whenever.
pub polls_disjoint :
    (now later : ℕ) (locked locked' : String → Bool) (p q : LeaseJobsParams) (jobs : List AppJob)
    → let (rows, jobs') = lease_jobs_with_fallback now locked p jobs in
      All (λ k. among rows k ≡ false) (lease_jobs_with_fallback later locked' q jobs').0
unfolding lease_jobs_with_fallback
polls_disjoint now later locked locked' p q jobs = All-map_of (lease_row q) _ _ (
    All-pick later locked' q (update_where (among rows) (lease_row p) jobs) _ (
      All-imp _ _ (λ k free can. any-map (lease_row p) (has_run k.run_id) rows ∙ free can) _
        (leased_elsewhere later locked' q.region p rows jobs)))
  where
    rows : List AppJob
    rows = pick now locked p jobs

-- What a poll returns is what the table then holds under each run id, leased to the caller until the
-- instant asked for. The run ids are distinct.
pub poll_returns :
    (now : ℕ) (locked : String → Bool) (p : LeaseJobsParams) (jobs : List AppJob)
    → Distinct jobs
    → let (rows, jobs') = lease_jobs_with_fallback now locked p jobs in
      All
        (λ k.
          (get_job_by_run_id k.run_id jobs' ≡ ok k) × HoldsUntil p.worker_id p.lease_expires_at k)
        rows
unfolding lease_jobs_with_fallback
poll_returns now locked p jobs d = All-map_of (lease_row p) _ rows (
    All-zip _ _ _
      (λ k found taken. (
        row_found k.run_id _ (
            rw taken at
              (find-update_where k.run_id (among rows) (lease_row p) (λ x. refl) jobs found)),
        (refl, refl, refl),
      ))
      rows
      (All-pick now locked p jobs _ (All-imp _ _ (λ k found can. found) jobs (rows_found jobs d)))
      (All-among rows))
  where
    rows : List AppJob
    rows = pick now locked p jobs
