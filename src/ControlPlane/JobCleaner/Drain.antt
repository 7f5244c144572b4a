-- ===== src/ControlPlane/JobCleaner/Drain.antt =====
-- runCleanup of internal/app/control-plane/job_cleaner.go ends, and leaves no old job behind.
use openseer.Base.{
  ℕ, zero, suc, ◌+◌, ◌-◌, ◌≤◌, ◌<◌, ◌≡◌, refl, sym, ◌∙◌, subst, ◌≢◌, inl, inr, Bool, true, false,
  not, Option, none, some, List, [], ◌∷◌, arith, ltb, ltb→lt, Bool-cases, All, length, take, filter,
  any, count_if, All-of_filter, take-cases, Result, ok, err, Result-cases,
}
use openseer.Base.Sort.{insert_sorted, sort, All-of_sort}
use openseer.Store.Jobs.{AppJob, among, is_old, older, delete_done_jobs_before}
use openseer.Store.Jobs.Leasing.{All-among}
use openseer.ControlPlane.JobCleaner.{
  new_job_cleaner, clean_query, CleanupEnd, drained, out_of_fuel, clean_loop, run_cleanup,
}
use openseer.Store.Db.{Database, statement, statement_ok}
use openseer.Store.Errors.{DbError}
use openseer.Base.Int.{ℤ, pos, negsuc, positive_or}

module _ (p : AppJob → Bool) where
  count_if-filter :
      (q : AppJob → Bool) (jobs : List AppJob) → count_if p (filter q jobs) ≤ count_if p jobs
  count_if-filter q [] = omega arith
  count_if-filter q (j ∷ jobs) = ground (arith, count_if-filter q jobs)

  count_if-insert :
      (first : AppJob → AppJob → Bool) (j : AppJob) (jobs : List AppJob)
      → count_if p (insert_sorted first j jobs) ≡ count_if p (j ∷ jobs)
  unfolding insert_sorted
  count_if-insert first j [] = refl
  count_if-insert first j (k ∷ jobs) = ground (arith, count_if-insert first j jobs)

  count_if-sort :
      (first : AppJob → AppJob → Bool) (jobs : List AppJob)
      → count_if p (sort first jobs) ≡ count_if p jobs
  unfolding sort
  count_if-sort first [] = refl
  count_if-sort first (j ∷ jobs) =
      count_if-insert first j (sort first jobs) ∙ ground (arith, count_if-sort first jobs)

  count_if-take : (n : ℕ) (jobs : List AppJob) → count_if p (take n jobs) ≤ count_if p jobs
  count_if-take zero jobs = omega arith
  count_if-take (suc n) [] = omega arith
  count_if-take (suc n) (j ∷ jobs) = ground (arith, count_if-take n jobs)

  count_if-All : (jobs : List AppJob) → All (λ j. p j ≡ true) jobs → count_if p jobs ≡ length jobs
  count_if-All [] h = refl
  count_if-All (j ∷ jobs) h = ground (arith, count_if-All jobs)

  -- What is counted and what the filter leaves make up the list.
  count_if-rest :
      (jobs : List AppJob) → length (filter (λ j. not (p j)) jobs) + count_if p jobs ≡ length jobs
  count_if-rest [] = omega arith
  count_if-rest (j ∷ jobs) = ground (arith, count_if-rest jobs)

  none_left :
      (q : AppJob → Bool) (jobs : List AppJob)
      → All (λ j. p j ≡ true → q j ≡ true) jobs
      → any p (filter (λ j. not (q j)) jobs) ≡ false
  none_left q [] h = refl
  none_left q (j ∷ jobs) h = ground (arith, none_left q jobs)

module _ (cutoff limit : ℕ) (jobs : List AppJob) where
  abbrev sorted : List AppJob
  sorted = sort older (filter (is_old cutoff) jobs)

  -- The statement deletes as many rows as it picks, or more.
  picked_deleted : length (take limit sorted) ≤ (delete_done_jobs_before cutoff limit jobs).0
  unfolding delete_done_jobs_before
  picked_deleted =
      let rows = take limit sorted in
      ground (
        arith,
        count_if-All (among rows) rows (All-among rows),
        count_if-take (among rows) limit sorted,
        count_if-sort (among rows) older (filter (is_old cutoff) jobs),
        count_if-filter (among rows) (is_old cutoff) jobs,
      )

  deleted_gone :
      length (delete_done_jobs_before cutoff limit jobs).1
        + (delete_done_jobs_before cutoff limit jobs).0
      ≡ length jobs
  unfolding delete_done_jobs_before
  deleted_gone = count_if-rest (among (take limit sorted)) jobs

  -- A short batch takes all that is left.
  short_batch :
      (delete_done_jobs_before cutoff limit jobs).0 < limit
      → any (is_old cutoff) (delete_done_jobs_before cutoff limit jobs).1 ≡ false
  unfolding delete_done_jobs_before
  short_batch h = elim (take-cases limit sorted) [
    | inl e ↦ absurd (ground (arith, picked_deleted))
    | inr e ↦ none_left (is_old cutoff) (among (take limit sorted)) jobs (
        All-of_filter _ (is_old cutoff) jobs
          (All-of_sort older _ (filter (is_old cutoff) jobs) (rw e (All-among sorted))))
  ]

abbrev pub is_drained : CleanupEnd → Bool
is_drained drained = true
is_drained _ = false

abbrev pub ended : CleanupEnd → Bool
ended out_of_fuel = false
ended _ = true

abbrev AfterBatch : ℕ → ℕ → Result DbError ℕ → List AppJob → List AppJob → Type 0
AfterBatch cutoff limit (err e) before_jobs after_jobs = Unit
AfterBatch cutoff limit (ok deleted) before_jobs after_jobs =
    (length after_jobs + deleted ≡ length before_jobs)
    × (deleted < limit → any (is_old cutoff) after_jobs ≡ false)

clean_query-batch :
    (cutoff limit : ℕ) (s : Database)
    → AfterBatch cutoff limit
        (statement (clean_query cutoff limit) s).0
        s.jobs
        (statement (clean_query cutoff limit) s).1.jobs
clean_query-batch cutoff limit s = elim (Result-cases (statement (clean_query cutoff limit) s).0) [
  | inl (deleted, e) ↦
      let (fs, answered, t) = statement_ok (clean_query cutoff limit) s e in
      subst (λ r. AfterBatch cutoff limit r s.jobs (statement (clean_query cutoff limit) s).1.jobs)
        (sym e)
        (subst (λ d. AfterBatch cutoff limit (ok deleted) s.jobs d.jobs) (sym t)
          (subst
            (λ r. AfterBatch cutoff limit r s.jobs (delete_done_jobs_before cutoff limit s.jobs).1)
            answered (deleted_gone cutoff limit s.jobs, short_batch cutoff limit s.jobs)))
  | inr (x, e) ↦ rw e tt
]

clean_loop-drains :
    (fuel cutoff batch_size : ℕ) (s : Database)
    → 0 < batch_size
    → length s.jobs < fuel
    → let (end, s') = clean_loop fuel cutoff batch_size s in
      (ended end ≡ true) × (is_drained end ≡ true → any (is_old cutoff) s'.jobs ≡ false)
unfolding clean_loop
clean_loop-drains zero cutoff batch_size s b h = absurd (omega arith)
clean_loop-drains (suc fuel) cutoff batch_size s b h =
    let after = clean_query-batch cutoff batch_size s in
    elim (Result-cases (statement (clean_query cutoff batch_size) s).0) [
      | inr (x, e) ↦ rw (e, clean_loop) (refl, (λ d. absurd (ground arith)))
      | inl (deleted, e) ↦
          let (total, short) = rw e at after in
          elim (Bool-cases (ltb deleted batch_size)) [
            | inl t ↦ rw (e, t, clean_loop) (refl, (λ d. short (ltb→lt deleted batch_size t)))
            | inr t ↦
                rw (e, t, clean_loop)
                  (clean_loop-drains fuel cutoff batch_size
                    (statement (clean_query cutoff batch_size) s).1 b (ground arith))
          ]
    ]

positive_or-lt : (x : ℤ) (d : ℕ) → 0 < d → 0 < positive_or x d
positive_or-lt (pos zero) d h = h
positive_or-lt (pos (suc n)) d h = omega arith
positive_or-lt (negsuc n) d h = h

drained_by :
    (interval retention batch : ℤ) (s : Database)
    → let c = new_job_cleaner interval retention batch in
      let (end, s') =
        clean_loop (suc (length s.jobs)) (s.clock - c.retention_period) c.batch_size s in
      (ended end ≡ true)
      × (is_drained end ≡ true → any (is_old (s.clock - c.retention_period)) s'.jobs ≡ false)
unfolding new_job_cleaner
drained_by interval retention batch s =
    clean_loop-drains (suc (length s.jobs)) (s.clock - positive_or retention 604_800_000_000_000)
      (positive_or batch 1000) s (positive_or-lt batch 1000 (omega arith)) (omega arith)

-- For a cleaner made by NewJobCleaner from any settings, the loop ends by itself, however its
-- statements fare: it runs once for each row of the table and once more at most.
pub cleanup_ends :
    (interval retention batch : ℤ) (lock : Option Bool) (s : Database)
    → (run_cleanup (new_job_cleaner interval retention batch) lock s).0 ≢ some out_of_fuel
unfolding run_cleanup new_job_cleaner
cleanup_ends interval retention batch none s e = absurd (ground arith)
cleanup_ends interval retention batch (some false) s e = absurd (ground arith)
cleanup_ends interval retention batch (some true) s e =
    let (done_by, rest) = drained_by interval retention batch s in absurd (ground arith)

-- For a cleaner made by NewJobCleaner from any settings, a clean-up that ends without an error
-- leaves no done job that was scheduled before now less the retention period.
pub cleanup_drains :
    (interval retention batch : ℤ) (lock : Option Bool) (s : Database)
    → (run_cleanup (new_job_cleaner interval retention batch) lock s).0 ≡ some drained
    → any
        (is_old (s.clock - positive_or retention 604_800_000_000_000))
        (run_cleanup (new_job_cleaner interval retention batch) lock s).1.jobs
      ≡ false
unfolding run_cleanup new_job_cleaner
cleanup_drains interval retention batch none s e = absurd (ground arith)
cleanup_drains interval retention batch (some false) s e = absurd (ground arith)
cleanup_drains interval retention batch (some true) s e =
    let (done_by, rest) = drained_by interval retention batch s in rest (ground arith)
