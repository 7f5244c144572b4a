-- ===== src/Store/Jobs/Reaping.antt =====
-- ReclaimExpiredLeases and the soft delete of a monitor's jobs: what is left to do afterwards.
use openseer.Base.{
  ℕ, String, ◌≡◌, refl, inl, inr, Bool, true, false, ◌&&◌, List, [], ◌∷◌, arith, Bool-cases,
  is_none, any, string_eq, nat_eq, ◌==◌,
}
use openseer.Store.Jobs.{
  JobStatus, ready, leased, done, is_ready, is_active, AppJob, can_lease, is_reclaimable,
  reclaim_expired_leases, delete_monitor_jobs,
}

-- The reaper leaves no lease that has run out, of a job that is not deleted.
pub none_expired :
    (now : ℕ) (jobs : List AppJob)
    → any (is_reclaimable now) (reclaim_expired_leases now jobs) ≡ false
unfolding reclaim_expired_leases
none_expired now [] = refl
none_expired now (j ∷ jobs) = elim (Bool-cases (is_reclaimable now j)) [
  | inl e ↦ rw e (none_expired now jobs)
  | inr e ↦ rw (e, e) (none_expired now jobs)
]

-- An open job of the monitor.
abbrev pub is_open_of : String → AppJob → Bool
is_open_of monitor_id j = j.monitor_id == monitor_id && is_active j.status && is_none j.deleted_at

-- After DeleteMonitorJobs no job of the monitor in the table can be leased, by a poll for any region and
-- at any time.
pub none_leasable :
    (now later : ℕ) (locked : String → Bool) (region monitor_id : String) (jobs : List AppJob)
    → any
        (λ j. j.monitor_id == monitor_id && can_lease later locked region j)
        (delete_monitor_jobs now monitor_id jobs)
      ≡ false
unfolding delete_monitor_jobs can_lease
none_leasable now later locked region monitor_id [] = refl
none_leasable now later locked region monitor_id (j ∷ jobs) =
    let rest = none_leasable now later locked region monitor_id jobs in
    elim (Bool-cases (is_open_of monitor_id j)) [
      | inl e ↦ rw e (ground arith)
      | inr e ↦ rw e (ground (arith, Bool-cases (is_ready j.status), ready_active j.status))
    ]
  where
    ready_active : (s : JobStatus) → is_ready s ≡ true → is_active s ≡ true
    ready_active ready h = refl
    ready_active leased h = refl
    ready_active done h = absurd (ground arith)
