-- ===== src/Store/Jobs/Table.antt =====
-- Laws of single rows under statements of jobs.sql.go: what a lookup by run id sees after an
-- UPDATE, an INSERT or a DELETE.
use openseer.Base.{
  ℕ, String, ◌≡◌, refl, inl, inr, Bool, true, false, none, some, List, [], ◌∷◌, ◌++◌, arith,
  if◌then◌else◌, Bool-cases, ◌==◌, string_eq, str_eq_iff, filter, find, any, ok, All, str_eq_self,
  take, All-imp, All-zip, any-take-false,
}
use openseer.Base.Sort.{sort, any-sort}
use openseer.Store.Jobs.{AppJob, update_where, among, get_job_by_run_id, clashes}

abbrev pub has_run : String → AppJob → Bool
has_run r j = j.run_id == r

-- The primary key: no run id stands in two rows.
abbrev pub Distinct : List AppJob → Type 0
Distinct [] = Unit
Distinct (j ∷ jobs) = (any (has_run j.run_id) jobs ≡ false) × Distinct jobs

abbrev pub KeepsRun : (AppJob → AppJob) → Type 0
KeepsRun f = (j : AppJob) → (f j).run_id ≡ j.run_id

pub find_row :
    (r : String) (jobs : List AppJob) {j : AppJob}
    → get_job_by_run_id r jobs ≡ ok j
    → find (has_run r) jobs ≡ some j
unfolding get_job_by_run_id
find_row r jobs h = ground arith

pub row_found :
    (r : String) (jobs : List AppJob) {j : AppJob}
    → find (has_run r) jobs ≡ some j
    → get_job_by_run_id r jobs ≡ ok j
unfolding get_job_by_run_id
row_found r jobs h = ground arith

module _ (r : String) (p : AppJob → Bool) (f : AppJob → AppJob) (keeps : KeepsRun f) where
  pub find-update_where :
      (jobs : List AppJob) {j : AppJob}
      → find (has_run r) jobs ≡ some j
      → find (has_run r) (update_where p f jobs) ≡ some (if p j then f j else j)
  find-update_where [] h = cc
  find-update_where (x ∷ jobs) {j} h = ground (arith, keeps x, find-update_where jobs {j = j})

  pub find-update_where-none :
      (jobs : List AppJob)
      → find (has_run r) jobs ≡ none
      → find (has_run r) (update_where p f jobs) ≡ none
  find-update_where-none [] h = refl
  find-update_where-none (x ∷ jobs) h = ground (arith, keeps x, find-update_where-none jobs)

  pub any-update_where :
      (jobs : List AppJob) → any (has_run r) (update_where p f jobs) ≡ any (has_run r) jobs
  any-update_where [] = refl
  any-update_where (x ∷ jobs) = ground (arith, keeps x, any-update_where jobs)

pub update_where-Distinct :
    (p : AppJob → Bool) (f : AppJob → AppJob)
    → KeepsRun f
    → (jobs : List AppJob) → Distinct jobs
    → Distinct (update_where p f jobs)
update_where-Distinct p f keeps [] d = tt
update_where-Distinct p f keeps (x ∷ jobs) d =
    let rest = update_where-Distinct p f keeps jobs d.1 in
    ground (arith, keeps x, any-update_where x.run_id p f keeps jobs, rest)

pub any-append_row :
    (r : String) (n : AppJob) (jobs : List AppJob)
    → any (has_run r) jobs ≡ false
    → (n.run_id == r) ≡ false
    → any (has_run r) (jobs ++ n ∷ []) ≡ false
any-append_row r n [] h e = ground arith
any-append_row r n (x ∷ jobs) h e = ground (arith, any-append_row r n jobs)

pub append_row-Distinct :
    (n : AppJob) (jobs : List AppJob)
    → any (has_run n.run_id) jobs ≡ false
    → Distinct jobs
    → Distinct (jobs ++ n ∷ [])
append_row-Distinct n [] h d = (refl, tt)
append_row-Distinct n (x ∷ jobs) h d = (
  any-append_row x.run_id n jobs d.0
      (ground (arith, str_eq_iff n.run_id x.run_id, str_eq_iff x.run_id n.run_id)),
  append_row-Distinct n jobs (ground arith) d.1,
)

pub any-filter-false :
    (q p : AppJob → Bool) (jobs : List AppJob) → any q jobs ≡ false → any q (filter p jobs) ≡ false
any-filter-false q p [] h = refl
any-filter-false q p (x ∷ jobs) h = ground (arith, any-filter-false q p jobs)

pub filter-Distinct :
    (p : AppJob → Bool) (jobs : List AppJob) → Distinct jobs → Distinct (filter p jobs)
filter-Distinct p [] d = tt
filter-Distinct p (x ∷ jobs) d =
    ground (arith, any-filter-false (has_run x.run_id) p jobs d.0, filter-Distinct p jobs d.1)

pub find-append_row :
    (r : String) (n : AppJob) (jobs : List AppJob) {j : AppJob}
    → find (has_run r) jobs ≡ some j
    → find (has_run r) (jobs ++ n ∷ []) ≡ some j
find-append_row r n [] h = cc
find-append_row r n (x ∷ jobs) {j} h = ground (arith, find-append_row r n jobs {j = j})

-- A DELETE that spares the row leaves it where a lookup finds it.
pub find-filter :
    (r : String) (p : AppJob → Bool) (jobs : List AppJob) {j : AppJob}
    → find (has_run r) jobs ≡ some j
    → p j ≡ true
    → find (has_run r) (filter p jobs) ≡ some j
find-filter r p [] h k = cc
find-filter r p (x ∷ jobs) {j} h k = ground (arith, find-filter r p jobs {j = j})

-- With the key distinct, a test on rows is settled by the row itself.
pub among_row :
    (q : AppJob → Bool) (jobs : List AppJob) {j : AppJob}
    → Distinct jobs
    → find (has_run j.run_id) jobs ≡ some j
    → q j ≡ false
    → any (has_run j.run_id) (filter q jobs) ≡ false
among_row q [] d h k = refl
among_row q (x ∷ jobs) {j} d h k = elim (Bool-cases (x.run_id == j.run_id)) [
  | inl here ↦
      ground (arith, str_eq_iff x.run_id j.run_id, any-filter-false (has_run x.run_id) q jobs d.0)
  | inr there ↦ ground (arith, among_row q jobs {j = j} d.1)
]

others_differ :
    (x : AppJob) (jobs : List AppJob)
    → any (has_run x.run_id) jobs ≡ false
    → All (λ j. (x.run_id == j.run_id) ≡ false) jobs
others_differ x [] h = tt
others_differ x (y ∷ jobs) h = (
  ground (arith, str_eq_iff x.run_id y.run_id, str_eq_iff y.run_id x.run_id),
  others_differ x jobs (ground arith),
)

-- With the key distinct, a lookup by a row's run id finds that row.
pub rows_found :
    (jobs : List AppJob) → Distinct jobs → All (λ j. find (has_run j.run_id) jobs ≡ some j) jobs
rows_found [] d = tt
rows_found (x ∷ jobs) d = (
  rw (str_eq_self x.run_id) refl,
  All-zip (λ j. (x.run_id == j.run_id) ≡ false) (λ j. find (has_run j.run_id) jobs ≡ some j)
      (λ j. find (has_run j.run_id) (x ∷ jobs) ≡ some j) (λ j e f. rw e f) jobs
      (others_differ x jobs d.0) (rows_found jobs d.1),
)

-- `run_id IN (SELECT run_id … ORDER BY … LIMIT …)` chooses among the rows that pass the test.
pub chosen_pass :
    (q : AppJob → Bool) (first : AppJob → AppJob → Bool) (limit : ℕ) (jobs : List AppJob)
    → Distinct jobs
    → All (λ j. among (take limit (sort first (filter q jobs))) j ≡ true → q j ≡ true) jobs
chosen_pass q first limit jobs d =
    All-imp (λ j. find (has_run j.run_id) jobs ≡ some j)
      (λ j. among (take limit (sort first (filter q jobs))) j ≡ true → q j ≡ true)
      (λ j found chosen. elim (Bool-cases (q j)) [
        | inl e ↦ e
        | inr e ↦ absurd (
            ground (
              arith,
              among_row q jobs {j = j} d found e,
              any-sort first (has_run j.run_id) (filter q jobs),
              any-take-false (has_run j.run_id) limit (sort first (filter q jobs)),
            ))
      ])
      jobs (rows_found jobs d)

pub no_clash :
    (n : AppJob) (jobs : List AppJob)
    → any (clashes n) jobs ≡ false
    → any (has_run n.run_id) jobs ≡ false
unfolding clashes
no_clash n [] h = refl
no_clash n (x ∷ jobs) h = ground (arith, no_clash n jobs)
