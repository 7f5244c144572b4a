-- ===== src/Store/Jobs/Queries.antt =====
-- The statements of internal/app/control-plane/store/sqlc/jobs.sql.go that look at jobs, and the lease
-- without the fallback to the region 'global'.
use openseer.Base.{
  ℕ, zero, suc, String, ◌≡◌, refl, inl, inr, Bool, true, not, ◌&&◌, some, List, [], ◌∷◌, map, arith,
  ltb, leb, Bool-cases, is_none, take, filter, any, count_if, string_eq, nat_eq, ◌==◌,
}
use openseer.Base.Sort.{sort}
use openseer.Store.Jobs.{
  is_ready, is_done, is_active, AppJob, update_where, LeaseJobsParams, can_lease, before, pick,
  among, lease_row, older,
}

-- SELECT EXISTS over `scheduled_at BETWEEN $2 AND $3`
unfoldable pub check_job_exists : String → ℕ → ℕ → List AppJob → Bool
check_job_exists monitor_id start end_at jobs =
    any
      (λ j.
        j.monitor_id == monitor_id
        && is_none j.deleted_at
        && is_active j.status
        && leb start j.scheduled_at
        && leb j.scheduled_at end_at)
      jobs

unfoldable pub count_deleted_jobs_for_monitor : String → List AppJob → ℕ
count_deleted_jobs_for_monitor monitor_id =
    count_if (λ j. j.monitor_id == monitor_id && not (is_none j.deleted_at))

unfoldable pub count_jobs_for_monitor : String → List AppJob → ℕ
count_jobs_for_monitor monitor_id =
    count_if (λ j. j.monitor_id == monitor_id && is_none j.deleted_at)

unfoldable pub force_expire_job_lease : String → ℕ → List AppJob → List AppJob
force_expire_job_lease run_id expires =
    update_where (λ j. j.run_id == run_id) (λ j. record j { lease_expires_at = some expires })

-- ORDER BY scheduled_at DESC
abbrev pub later : AppJob → AppJob → Bool
later j k = ltb k.scheduled_at j.scheduled_at

unfoldable pub get_completed_jobs_by_monitor : String → List AppJob → List AppJob
get_completed_jobs_by_monitor monitor_id jobs =
    sort later
      (filter (λ j. j.monitor_id == monitor_id && is_done j.status && is_none j.deleted_at) jobs)

unfoldable pub get_jobs_for_monitor : String → List AppJob → List AppJob
get_jobs_for_monitor monitor_id jobs =
    sort later (filter (λ j. j.monitor_id == monitor_id && is_none j.deleted_at) jobs)

abbrev pub is_waiting : ℕ → AppJob → Bool
is_waiting now j = is_ready j.status && is_none j.deleted_at && leb j.scheduled_at now

unfoldable pub get_ready_jobs_count : ℕ → List AppJob → ℕ
get_ready_jobs_count now = count_if (is_waiting now)

-- The rows that LeaseJobs picks: of the worker's region only.
unfoldable pub pick_regional : ℕ → (String → Bool) → LeaseJobsParams → List AppJob → List AppJob
pick_regional now locked p jobs = take p.limit (
    sort older
      (filter (λ j. is_waiting now j && j.region == p.region && not (locked j.run_id)) jobs))

unfoldable pub lease_jobs :
    ℕ → (String → Bool) → LeaseJobsParams → List AppJob → List AppJob × List AppJob
unfolding pick_regional
lease_jobs now locked p jobs =
    let rows = pick_regional now locked p jobs in
    (map (lease_row p) rows, update_where (among rows) (lease_row p) jobs)

filter_none :
    (p q : AppJob → Bool) (jobs : List AppJob)
    → ((j : AppJob) → q j ≡ true → p j ≡ true)
    → count_if p jobs ≡ 0
    → filter q jobs ≡ []
filter_none p q [] imp h = refl
filter_none p q (j ∷ jobs) imp h = elim (Bool-cases (q j)) [
  | inl e ↦ let t = imp j e in absurd (ground arith)
  | inr e ↦ rw e (filter_none p q jobs imp (ground arith))
]

sort_nil :
    (before : AppJob → AppJob → Bool) (n : ℕ) (xs : List AppJob)
    → xs ≡ []
    → take n (sort before xs) ≡ []
unfolding sort
sort_nil before zero xs h = refl
sort_nil before (suc n) xs h = rw h refl

-- When GetReadyJobsCount counts none, no poll of any region leases a job, with or without the fallback.
pub none_waiting :
    (now : ℕ) (locked : String → Bool) (p : LeaseJobsParams) (jobs : List AppJob)
    → get_ready_jobs_count now jobs ≡ 0
    → (pick now locked p jobs ≡ []) × (pick_regional now locked p jobs ≡ [])
unfolding get_ready_jobs_count pick pick_regional can_lease
none_waiting now locked p jobs h = (
  sort_nil _ p.limit _
      (filter_none (is_waiting now) (can_lease now locked p.region) jobs (λ j e. ground arith) h),
  sort_nil _ p.limit _ (filter_none (is_waiting now) _ jobs (λ j e. ground arith) h),
)
