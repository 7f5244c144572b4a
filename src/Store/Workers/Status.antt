-- ===== src/Store/Workers/Status.antt =====
-- How the statements of internal/app/control-plane/store/sqlc/workers.sql.go move a worker's status.
use openseer.Base.{
  ℕ, ◌+◌, ◌*◌, String, ◌≡◌, refl, ◌≢◌, inl, inr, Bool, true, false, ◌&&◌, Option, some, List, [],
  ◌∷◌, arith, ltb, Bool-cases, any, any-append, string_eq, nat_eq, ◌==◌, str_eq_iff,
}
use openseer.Store.Workers.{
  active, inactive, revoked, is_revoked, is_recent, AppWorker, minute, has_id, set_where,
  EnrollWorkerParams, enroll_worker, set_worker_token, revoke_worker, update_worker_heartbeat,
  is_stale, mark_worker_inactive,
}

-- The statements that change app.workers while the system runs.
pub data WorkerOp : Type 0 where
  enroll : EnrollWorkerParams → WorkerOp
  set_token : Option String → String → WorkerOp
  revoke : Option String → String → WorkerOp
  heartbeat : String → WorkerOp
  mark_inactive : WorkerOp

unfoldable pub apply_worker : ℕ → WorkerOp → List AppWorker → List AppWorker
apply_worker now (enroll p) workers = (enroll_worker now p workers).1
apply_worker now (set_token hash id) workers = set_worker_token hash id workers
apply_worker now (revoke reason id) workers = revoke_worker now reason id workers
apply_worker now (heartbeat id) workers = update_worker_heartbeat now id workers
apply_worker now mark_inactive workers = mark_worker_inactive now workers

-- A row of that id is revoked.
unfoldable pub is_revoked_in : String → List AppWorker → Bool
is_revoked_in id workers = any (λ w. w.id == id && is_revoked w.status) workers

revoked_kept :
    (id : String) (p : AppWorker → Bool) (f : AppWorker → AppWorker)
    → ((w : AppWorker)
        → p w ≡ true
        → (w.id == id && is_revoked w.status) ≡ true
        → ((f w).id == id && is_revoked (f w).status) ≡ true)
    → (workers : List AppWorker) → is_revoked_in id workers ≡ true
    → is_revoked_in id (set_where p f workers) ≡ true
unfolding is_revoked_in
revoked_kept id p f keep [] h = h
revoked_kept id p f keep (w ∷ workers) h = elim (Bool-cases (w.id == id && is_revoked w.status)) [
  | inl here ↦ elim (Bool-cases (p w)) [
    | inl e ↦ let h' = keep w e here in rw e (ground arith)
    | inr e ↦ rw e (ground arith)
  ]
  | inr there ↦ let later = revoked_kept id p f keep workers (ground arith) in ground arith
]

enroll-is_revoked_in :
    (now : ℕ) (p : EnrollWorkerParams) (id : String) (workers : List AppWorker)
    → is_revoked_in id workers ≡ true
    → is_revoked_in id (enroll_worker now p workers).1 ≡ true
unfolding is_revoked_in enroll_worker
enroll-is_revoked_in now p id workers h = elim (Bool-cases (any (has_id p.id) workers)) [
  | inl e ↦ rw e h
  | inr e ↦ rw (e, any-append (λ w. w.id == id && is_revoked w.status) workers _, h) refl
]

-- Any statement but a heartbeat of the worker.
abbrev pub IsQuiet : String → WorkerOp → Type 0
IsQuiet id (heartbeat other) = other ≢ id
IsQuiet id _ = Unit

-- A revoked worker stays revoked under every statement but its own heartbeat: it cannot be enrolled
-- again, nor turn inactive, nor come back by a new token.
pub revoked_stays :
    (now : ℕ) (op : WorkerOp) (id : String) (workers : List AppWorker)
    → IsQuiet id op
    → is_revoked_in id workers ≡ true
    → is_revoked_in id (apply_worker now op workers) ≡ true
unfolding apply_worker set_worker_token revoke_worker update_worker_heartbeat mark_worker_inactive
    is_stale
revoked_stays now (enroll p) id workers q h = enroll-is_revoked_in now p id workers h
revoked_stays now (set_token hash other) id workers q h =
    revoked_kept id (has_id other) (λ w. record w { token_hash = hash }) (λ w e k. k) workers h
revoked_stays now (revoke reason other) id workers q h =
    revoked_kept id (has_id other)
      (λ w. record w { status = revoked; revoked_at = some now; revoked_reason = reason })
      (λ w e k. ground arith) workers h
revoked_stays now (heartbeat other) id workers q h =
    revoked_kept id (has_id other) (λ w. record w { last_seen_at = now; status = active })
      (λ w e k. absurd (ground (arith, str_eq_iff w.id other, str_eq_iff w.id id))) workers h
revoked_stays now mark_inactive id workers q h =
    revoked_kept id (is_stale now) (λ w. record w { status = inactive })
      (λ w e k. absurd (ground arith)) workers h

-- A heartbeat undoes a revocation: after UpdateWorkerHeartbeat no row of the worker is revoked.
pub heartbeat_reactivates :
    (now : ℕ) (id : String) (workers : List AppWorker)
    → is_revoked_in id (apply_worker now (heartbeat id) workers) ≡ false
unfolding apply_worker update_worker_heartbeat is_revoked_in
heartbeat_reactivates now id [] = refl
heartbeat_reactivates now id (w ∷ workers) = elim (Bool-cases (w.id == id)) [
  | inl e ↦ rw e (ground (arith, heartbeat_reactivates now id workers))
  | inr e ↦ rw e (ground (arith, heartbeat_reactivates now id workers))
]

-- MarkWorkerInactive leaves no worker that is enrolled or active and was not seen for two minutes.
pub none_stale :
    (now : ℕ) (workers : List AppWorker)
    → any (is_stale now) (apply_worker now mark_inactive workers) ≡ false
unfolding apply_worker mark_worker_inactive is_stale
none_stale now [] = refl
none_stale now (w ∷ workers) =
    elim (Bool-cases (is_recent w.status && ltb (w.last_seen_at + 2 * minute) now)) [
      | inl e ↦ rw e (none_stale now workers)
      | inr e ↦ rw (e, e) (none_stale now workers)
    ]
