-- ===== src/Store/Jobs/Leasing.antt =====
-- Which jobs a poll leases: LeaseJobsWithFallback and LeaseJobsWithMonitorData.
use openseer.Base.{
  ℕ, zero, suc, String, ◌≡◌, ◌⊎◌, inl, inr, Bool, true, false, not, ◌&&◌, List, [], ◌∷◌, arith, All,
  length, take, filter, All-of_forall, All-imp, All-zip, All-take, All-of_filter, All-filter,
  take-cases, str_eq_iff,
}
use openseer.Base.Sort.{sort, IsSorted, sort-All, All-of_sort, sort-IsSorted}
use openseer.Store.Jobs.{AppJob, LeaseJobsParams, can_lease, before, pick, among}

before_asymmetric :
    (region : String) (a b : AppJob) → before region a b ≡ true → before region b a ≡ false
unfolding before
before_asymmetric region a b h = ground arith

before_negative :
    (region : String) (a b c : AppJob)
    → before region b a ≡ false
    → before region c b ≡ false
    → before region c a ≡ false
unfolding before
before_negative region a b c h k = ground arith

-- In a sorted list, what a prefix leaves out precedes nothing in the prefix.
rest_not_before :
    (first : AppJob → AppJob → Bool) (n : ℕ) (rows : List AppJob)
    → IsSorted first rows
    → All (λ r. among (take n rows) r ≡ false → All (λ k. first r k ≡ false) (take n rows)) rows
rest_not_before first zero rows s = All-of_forall _ (λ r e. tt) rows
rest_not_before first (suc n) [] s = tt
rest_not_before first (suc n) (x ∷ rows) s = (
  (λ e. absurd (ground (arith, str_eq_iff x.run_id x.run_id))),
  All-zip (λ y. first y x ≡ false)
      (λ r. among (take n rows) r ≡ false → All (λ k. first r k ≡ false) (take n rows))
      (λ r. among (x ∷ take n rows) r ≡ false → All (λ k. first r k ≡ false) (x ∷ take n rows))
      (λ r head tail e. (head, tail (ground arith))) rows s.0 (rest_not_before first n rows s.1),
)

pub All-among : (rows : List AppJob) → All (λ r. among rows r ≡ true) rows
All-among [] = tt
All-among (x ∷ rows) = (
  ground (arith, str_eq_iff x.run_id x.run_id),
  All-imp (λ r. among rows r ≡ true) (λ r. among (x ∷ rows) r ≡ true) (λ r e. ground arith) rows
      (All-among rows),
)

module _ (now : ℕ) (locked : String → Bool) (p : LeaseJobsParams) (jobs : List AppJob) where
  abbrev waiting : List AppJob
  waiting = sort (before p.region) (filter (can_lease now locked p.region) jobs)

  passed_over :
      All
        (λ j.
          can_lease now locked p.region j ≡ true
          → among (pick now locked p jobs) j ≡ false
          → All (λ k. before p.region j k ≡ false) (pick now locked p jobs))
        jobs
  unfolding pick
  passed_over = All-of_filter _ (can_lease now locked p.region) jobs (
      All-of_sort (before p.region) _ (filter (can_lease now locked p.region) jobs) (
        rest_not_before (before p.region) p.limit waiting (
          sort-IsSorted (before p.region) (before_asymmetric p.region) (before_negative p.region)
            (filter (can_lease now locked p.region) jobs))))

  -- Every job that the poll could have leased and did not comes no earlier, in the order of exact
  -- region first and then of schedule, than each job that it leased.
  pub pick_priority :
      All
        (λ j. All (λ k. before p.region j k ≡ false) (pick now locked p jobs))
        (filter
          (λ j. can_lease now locked p.region j && not (among (pick now locked p jobs) j))
          jobs)
  pick_priority =
      All-filter _ _ jobs
        (All-imp _ _ (λ j over e. over (ground arith) (ground arith)) jobs passed_over)

  -- A poll leases as many jobs as its limit, or every job that it could lease.
  pub pick_exhausts :
      (length (pick now locked p jobs) ≡ p.limit)
      ⊎ All
          (λ j. among (pick now locked p jobs) j ≡ true)
          (filter (can_lease now locked p.region) jobs)
  unfolding pick
  pick_exhausts = elim (take-cases p.limit waiting) [
    | inl e ↦ inl e
    | inr e ↦ inr (
        All-of_sort (before p.region) _ (filter (can_lease now locked p.region) jobs)
          (rw e (All-among waiting)))
  ]

  -- A poll is at its limit, or what holds of each job that it picked holds of each that it could lease.
  pub pick_covers :
      (length (pick now locked p jobs) ≡ p.limit)
      ⊎ ((P : AppJob → Type 0)
          → All P (pick now locked p jobs)
          → All P (filter (can_lease now locked p.region) jobs))
  unfolding pick
  pick_covers = elim (take-cases p.limit waiting) [
    | inl e ↦ inl e
    | inr e ↦ inr (λ P h.
        All-of_sort (before p.region) P (filter (can_lease now locked p.region) jobs) (rw e at h))
  ]

  -- What holds of the table's jobs that can be leased holds of those that are picked.
  pub All-pick {κ} :
      (P : AppJob → Type κ)
      → All (λ j. can_lease now locked p.region j ≡ true → P j) jobs
      → All P (pick now locked p jobs)
  unfolding pick
  All-pick P h = All-take P p.limit waiting (
      sort-All (before p.region) P (filter (can_lease now locked p.region) jobs)
        (All-filter P (can_lease now locked p.region) jobs h))

  pub pick-can_lease : All (λ j. can_lease now locked p.region j ≡ true) (pick now locked p jobs)
  pick-can_lease = All-pick _ (All-of_forall _ (λ j e. e) jobs)
