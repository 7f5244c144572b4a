-- ===== src/Store/Jobs/Lookup.antt =====
-- What a statement makes of the one job with a given run id.
use openseer.Base.{
  ℕ, String, ◌≡◌, refl, subst, ◌⊎◌, inl, inr, some, List, arith, Bool-cases, find, ◌==◌, nat_eq,
  string_eq, ok,
}
use openseer.Store.Jobs.{done, AppJob, get_job_by_run_id}
use openseer.Store.Jobs.Table.{has_run, Distinct, find_row, row_found}
use openseer.Store.Jobs.Lifecycle.{
  JobOp, apply, Move, stay, take_up, extend, finish, give_back, withdraw, Dropped, Evolves, same,
  row, drop, added,
}
use openseer.Store.Jobs.Moves.{apply-Evolves}

Move-run_id : (now : ℕ) (j k : AppJob) → Move now j k → k.run_id ≡ j.run_id
Move-run_id now j k (stay e) = rw e
Move-run_id now j k (take_up w t s d b e) = rw e
Move-run_id now j k (extend w t s o e) = rw e
Move-run_id now j k (finish w s o e) = rw e
Move-run_id now j k (give_back t s l b e) = rw e
Move-run_id now j k (withdraw n d e) = rw e

-- The row that a lookup finds afterwards came from the one that it found before.
abbrev pub Followed : ℕ → JobOp → String → AppJob → List AppJob → Type 0
Followed now op r j rows =
    ((k : AppJob) × (find (has_run r) rows ≡ some k) × Move now j k) ⊎ Dropped op j

Evolves-find :
    {now : ℕ} {op : JobOp} {jobs rows : List AppJob} (r : String) {j : AppJob}
    → Evolves now op jobs rows
    → find (has_run r) jobs ≡ some j
    → Followed now op r j rows
Evolves-find r same h = cc
Evolves-find {now} r {j} (row {j = x} {k = y} {jobs = xs} m rest) h =
    elim (Bool-cases (x.run_id == r)) [
      | inl e ↦
          inl (y, rw (Move-run_id now x y m, e) refl, subst (λ t. Move now t y) (ground arith) m)
      | inr e ↦ elim (Evolves-find r {j = j} rest (ground arith)) [
        | inl (k, f, m') ↦ inl (k, rw (Move-run_id now x y m, e) f, m')
        | inr d ↦ inr d
      ]
    ]
Evolves-find {op = op} r {j} (drop {j = x} d rest) h = elim (Bool-cases (x.run_id == r)) [
  | inl e ↦ inr (subst (Dropped op) (ground arith) d)
  | inr e ↦ Evolves-find r {j = j} rest (ground arith)
]
Evolves-find r (added c) h = cc

-- After one statement of JobOp, which leaves out LeaseJobs and ForceExpireJobLease, a job that GetJobByRunID found is found again, moved along its life, or
-- the statement is the cleaner's and the job was done and older than its cutoff. The run ids are
-- distinct.
pub get-apply :
    (now : ℕ) (op : JobOp) (r : String) (jobs : List AppJob) {j : AppJob}
    → Distinct jobs
    → get_job_by_run_id r jobs ≡ ok j
    → ((k : AppJob) × (get_job_by_run_id r (apply now op jobs) ≡ ok k) × Move now j k)
      ⊎ Dropped op j
get-apply now op r jobs d h =
    elim (Evolves-find r (apply-Evolves now op jobs d) (find_row r jobs h)) [
      | inl (k, f, m) ↦ inl (k, row_found r _ f, m)
      | inr x ↦ inr x
    ]

done_stays : (now : ℕ) (j k : AppJob) → Move now j k → j.status ≡ done → k ≡ j
done_stays now j k (stay e) h = e
done_stays now j k (take_up w t s d b e) h = ground arith
done_stays now j k (extend w t s o e) h = ground arith
done_stays now j k (finish w s o e) h = ground arith
done_stays now j k (give_back t s l b e) h = ground arith
done_stays now j k (withdraw n d e) h = absurd (n h)

-- A done job stays exactly as it is under every statement of JobOp, until the cleaner deletes it. The run ids
-- are distinct.
pub done_final :
    (now : ℕ) (op : JobOp) (r : String) (jobs : List AppJob) {j : AppJob}
    → Distinct jobs
    → get_job_by_run_id r jobs ≡ ok j
    → j.status ≡ done
    → (get_job_by_run_id r (apply now op jobs) ≡ ok j) ⊎ Dropped op j
done_final now op r jobs {j} d h s = elim (get-apply now op r jobs d h) [
  | inl (k, f, m) ↦ inl (rw (done_stays now j k m s) at f)
  | inr x ↦ inr x
]
