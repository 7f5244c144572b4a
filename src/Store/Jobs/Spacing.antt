-- ===== src/Store/Jobs/Spacing.antt =====
-- Deduplication: the open jobs of one monitor and region keep their distance.
use openseer.Base.{
  ℕ, ◌+◌, ◌-◌, ◌≤◌, String, ◌≡◌, refl, sym, subst, inl, inr, Bool, true, false, ◌&&◌, List, [], ◌∷◌,
  ◌++◌, arith, leb, Bool-cases, is_none, any, ◌==◌, nat_eq, string_eq, str_eq_iff,
}
use openseer.Store.Jobs.{
  is_active, AppJob, CreateJobParams, new_job, clashes, create_job, in_window,
  create_job_idempotent,
}
use openseer.Store.Jobs.Lifecycle.{
  JobOp, create, create_idempotent, lease, renew, complete, reclaim, clean, delete_open, apply,
  Move, stay, take_up, extend, finish, give_back, withdraw, Created, Evolves, same, row, drop,
  added,
}
use openseer.Store.Jobs.Table.{Distinct}
use openseer.Store.Jobs.Moves.{apply-Evolves}

abbrev pub is_open : AppJob → Bool
is_open j = is_none j.deleted_at && is_active j.status

-- Two open jobs of one monitor and region, at most `w` apart.
unfoldable pub too_near : ℕ → AppJob → AppJob → Bool
too_near w j k =
    (is_open j && is_open k)
    && (j.monitor_id == k.monitor_id && j.region == k.region)
    && (leb j.scheduled_at (k.scheduled_at + w) && leb k.scheduled_at (j.scheduled_at + w))

-- `w` gives each monitor's window.
abbrev pub Spaced : (String → ℕ) → List AppJob → Type 0
Spaced w [] = Unit
Spaced w (j ∷ jobs) = (any (too_near (w j.monitor_id) j) jobs ≡ false) × Spaced w jobs

-- A move leaves the monitor, the region and the schedule alone, and never opens a job.
abbrev pub Tamer : AppJob → AppJob → Type 0
Tamer j k =
    (k.monitor_id ≡ j.monitor_id)
    × (k.region ≡ j.region)
    × (k.scheduled_at ≡ j.scheduled_at)
    × (is_open k ≡ true → is_open j ≡ true)

Move-Tamer : (now : ℕ) (j k : AppJob) → Move now j k → Tamer j k
Move-Tamer now j k (stay e) = ground arith
Move-Tamer now j k (take_up w t s d b e) = ground arith
Move-Tamer now j k (extend w t s o e) = ground arith
Move-Tamer now j k (finish w s o e) = ground arith
Move-Tamer now j k (give_back t s l b e) = ground arith
Move-Tamer now j k (withdraw n d e) = ground arith

too_near_tame :
    (w : ℕ) (j j' k k' : AppJob)
    → Tamer j j'
    → Tamer k k'
    → too_near w j k ≡ false
    → too_near w j' k' ≡ false
unfolding too_near
too_near_tame w j j' k k' (m, r, s, o) (m', r', s', o') h = rw (m, r, s, m', r', s') (ground arith)

module _ {now : ℕ} {op : JobOp} (fresh : (j : AppJob) → ¬ Created now op j) where
  Evolves-any :
      (w : ℕ) (j j' : AppJob) {jobs rows : List AppJob}
      → Tamer j j'
      → Evolves now op jobs rows
      → any (too_near w j) jobs ≡ false
      → any (too_near w j') rows ≡ false
  Evolves-any w j j' t same h = refl
  Evolves-any w j j' t (row {j = k} {k = k'} m rest) h =
      ground (arith, too_near_tame w j j' k k' t (Move-Tamer now k k' m), Evolves-any w j j' t rest)
  Evolves-any w j j' t (drop d rest) h = Evolves-any w j j' t rest (ground arith)
  Evolves-any w j j' t (added {j = x} c) h = absurd (fresh x c)

  Evolves-Spaced :
      (w : String → ℕ) {jobs rows : List AppJob}
      → Evolves now op jobs rows
      → Spaced w jobs
      → Spaced w rows
  Evolves-Spaced w same h = tt
  Evolves-Spaced w (row {j = j} {k = k} {rows = ks} m rest) h =
      let t = Move-Tamer now j k m in
      (
        subst (λ m. any (too_near (w m) k) ks ≡ false) (sym t.0)
            (Evolves-any (w j.monitor_id) j k t rest h.0),
        Evolves-Spaced w rest h.1,
      )
  Evolves-Spaced w (drop d rest) h = Evolves-Spaced w rest h.1
  Evolves-Spaced w (added {j = x} c) h = absurd (fresh x c)

-- The window that the creation looks through covers the monitor's.
abbrev pub Covers : (String → ℕ) → CreateJobParams → ℕ → ℕ → Type 0
Covers w p start end_at =
    (start ≤ p.scheduled_at - w p.monitor_id) × (p.scheduled_at + w p.monitor_id ≤ end_at)

outside_window :
    (w : String → ℕ) (now : ℕ) (p : CreateJobParams) (start end_at : ℕ) (j : AppJob)
    → Covers w p start end_at
    → in_window p start end_at j ≡ false
    → too_near (w j.monitor_id) j (new_job now p) ≡ false
unfolding too_near in_window
outside_window w now p start end_at j c h = elim (Bool-cases (j.monitor_id == p.monitor_id)) [
  | inl e ↦
      let same : j.monitor_id ≡ p.monitor_id = (str_eq_iff j.monitor_id p.monitor_id).0 e in
      subst (λ m. too_near (w m) j (new_job now p) ≡ false) (sym same) (ground arith)
  | inr e ↦ ground arith
]

any-append_far :
    (w : ℕ) (j n : AppJob) (jobs : List AppJob)
    → any (too_near w j) jobs ≡ false
    → too_near w j n ≡ false
    → any (too_near w j) (jobs ++ n ∷ []) ≡ false
any-append_far w j n [] h k = ground arith
any-append_far w j n (x ∷ jobs) h k = ground (arith, any-append_far w j n jobs)

append-Spaced :
    (w : String → ℕ) (now : ℕ) (p : CreateJobParams) (start end_at : ℕ) (jobs : List AppJob)
    → Covers w p start end_at
    → any (in_window p start end_at) jobs ≡ false
    → Spaced w jobs
    → Spaced w (jobs ++ new_job now p ∷ [])
append-Spaced w now p start end_at [] c h s = (refl, tt)
append-Spaced w now p start end_at (j ∷ jobs) c h s = (
  any-append_far (w j.monitor_id) j (new_job now p) jobs s.0
      (outside_window w now p start end_at j c (ground arith)),
  append-Spaced w now p start end_at jobs c (ground arith) s.1,
)

create-Spaced :
    (w : String → ℕ) (now : ℕ) (p : CreateJobParams) (start end_at : ℕ) (jobs : List AppJob)
    → Covers w p start end_at
    → Spaced w jobs
    → Spaced w (create_job_idempotent now p start end_at jobs).1
unfolding create_job_idempotent create_job
create-Spaced w now p start end_at jobs c s =
    elim (Bool-cases (any (in_window p start end_at) jobs)) [
      | inl e ↦ rw e s
      | inr e ↦ elim (Bool-cases (any (clashes (new_job now p)) jobs)) [
        | inl e' ↦ rw (e, e') s
        | inr e' ↦ rw (e, e') (append-Spaced w now p start end_at jobs c e s)
      ]
    ]

-- The creations that keep to each monitor's window: CreateJobIdempotent over one that covers it.
abbrev pub KeepsWindow : (String → ℕ) → JobOp → Type 0
KeepsWindow w (create p) = ⊥
KeepsWindow w (create_idempotent p start end_at) = Covers w p start end_at
KeepsWindow w _ = Unit

-- However the statements of JobOp come, as long as jobs are created by CreateJobIdempotent over a window
-- that covers the monitor's, any two open jobs of one monitor and region stay further apart than
-- that monitor's window. The run ids are distinct.
pub apply-Spaced :
    (w : String → ℕ) (now : ℕ) (op : JobOp) (jobs : List AppJob)
    → Distinct jobs
    → KeepsWindow w op
    → Spaced w jobs
    → Spaced w (apply now op jobs)
unfolding apply
apply-Spaced w now (create p) jobs d k s = absurd k
apply-Spaced w now (create_idempotent p start end_at) jobs d k s =
    create-Spaced w now p start end_at jobs k s
apply-Spaced w now (lease locked p) jobs d k s =
    Evolves-Spaced (λ j c. c) w (apply-Evolves now (lease locked p) jobs d) s
apply-Spaced w now (renew run_id worker_id expires) jobs d k s =
    Evolves-Spaced (λ j c. c) w (apply-Evolves now (renew run_id worker_id expires) jobs d) s
apply-Spaced w now (complete run_id worker_id) jobs d k s =
    Evolves-Spaced (λ j c. c) w (apply-Evolves now (complete run_id worker_id) jobs d) s
apply-Spaced w now reclaim jobs d k s =
    Evolves-Spaced (λ j c. c) w (apply-Evolves now reclaim jobs d) s
apply-Spaced w now (clean cutoff limit) jobs d k s =
    Evolves-Spaced (λ j c. c) w (apply-Evolves now (clean cutoff limit) jobs d) s
apply-Spaced w now (delete_open monitor_id) jobs d k s =
    Evolves-Spaced (λ j c. c) w (apply-Evolves now (delete_open monitor_id) jobs d) s
