-- ===== src/ControlPlane/WorkerService/Renewal.antt =====
-- RenewLease of internal/app/control-plane/api/worker/service.go: what a renewed lease means.
use openseer.Base.{
  ℕ, ◌+◌, String, ◌≡◌, refl, sym, ap, ◌∙◌, subst, inl, inr, Bool, true, false, ◌&&◌, none, some,
  List, [], ◌∷◌, arith, Bool-cases, Option-cases, any, find, any-find, string_eq, nat_eq, ◌==◌,
  Result, ok, err, is_ok, Result-cases,
}
use openseer.ControlPlane.Heartbeats.{should_update}
use openseer.ControlPlane.WorkerService.{
  Code, State, heartbeat_query, after_heartbeat, touch_worker_heartbeat, renew_query,
  renew_lease_call,
}
use openseer.Store.Db.{Database, statement, statement_keeps, statement_ok}
use openseer.Store.Errors.{DbError}
use openseer.Store.Jobs.{AppJob, update_where, update_one, owns_lease, renew_lease}

-- A job of the run that the worker holds until that instant.
abbrev pub is_held_until : String → String → ℕ → AppJob → Bool
is_held_until run_id worker_id expires j =
    owns_lease run_id worker_id j
    && (elim j.lease_expires_at [ none ↦ false | some e ↦ e == expires ])

abbrev extend_lease : ℕ → AppJob → AppJob
extend_lease expires j = record j { lease_expires_at = some expires }

held-update_where :
    (run_id worker_id : String) (expires : ℕ) (jobs : List AppJob)
    → any (owns_lease run_id worker_id) jobs ≡ true
    → any
        (is_held_until run_id worker_id expires)
        (update_where (owns_lease run_id worker_id) (extend_lease expires) jobs)
      ≡ true
held-update_where run_id worker_id expires [] h = absurd (ground arith)
held-update_where run_id worker_id expires (j ∷ jobs) h =
    elim (Bool-cases (owns_lease run_id worker_id j)) [
      | inl e ↦ rw e (ground arith)
      | inr e ↦
          let later : any (owns_lease run_id worker_id) jobs ≡ true = ground arith in
          ground (arith, held-update_where run_id worker_id expires jobs later)
    ]

renew_lease-held :
    (run_id worker_id : String) (expires : ℕ) (jobs : List AppJob) {j : AppJob}
    → (renew_lease run_id worker_id expires jobs).0 ≡ ok j
    → any (is_held_until run_id worker_id expires) (renew_lease run_id worker_id expires jobs).1
      ≡ true
unfolding renew_lease update_one
renew_lease-held run_id worker_id expires jobs h =
    elim (Option-cases (find (owns_lease run_id worker_id) jobs)) [
      | inl e ↦ absurd (ground arith)
      | inr (k, e) ↦
          rw (e, update_one)
            (held-update_where run_id worker_id expires jobs
              (any-find (owns_lease run_id worker_id) jobs e))
    ]

touch_worker_heartbeat-clock :
    (worker_id : String) (s : State)
    → ((touch_worker_heartbeat worker_id s).db.clock ≡ s.db.clock)
      × ((touch_worker_heartbeat worker_id s).service.lease_duration ≡ s.service.lease_duration)
unfolding touch_worker_heartbeat
touch_worker_heartbeat-clock worker_id s =
    elim (Bool-cases (should_update s.db.clock worker_id s.service.heartbeats).0) [
      | inl e ↦ rw e (after_heartbeat-clock (statement (heartbeat_query worker_id) s.db).0)
      | inr e ↦ rw e (refl, refl)
    ]
  where
    kept : (statement (heartbeat_query worker_id) s.db).1.clock ≡ s.db.clock
    kept =
        statement_keeps (λ d. d.clock ≡ s.db.clock) (heartbeat_query worker_id) (λ d fs k. k)
          (λ d k. k) s.db refl

    after_heartbeat-clock :
        (r : Result DbError (Unit {0}))
        → let s' : State = record {
          service = record s.service {
            heartbeats = (should_update s.db.clock worker_id s.service.heartbeats).1;
          };
          db = (statement (heartbeat_query worker_id) s.db).1;
        } in
          ((after_heartbeat worker_id r s').db.clock ≡ s.db.clock)
          × ((after_heartbeat worker_id r s').service.lease_duration ≡ s.service.lease_duration)
    after_heartbeat-clock (ok u) = (kept, refl)
    after_heartbeat-clock (err e) = (kept, refl)

renew_statement-held :
    (run_id worker_id : String) (expires : ℕ) (d : Database)
    → is_ok (statement (renew_query run_id worker_id expires) d).0 ≡ true
    → any
        (is_held_until run_id worker_id expires)
        (statement (renew_query run_id worker_id expires) d).1.jobs
      ≡ true
renew_statement-held run_id worker_id expires d h =
    elim (Result-cases (statement (renew_query run_id worker_id expires) d).0) [
      | inl (j, e) ↦
          let (fs, renewed, t) = statement_ok (renew_query run_id worker_id expires) d e in
          subst (λ x. any (is_held_until run_id worker_id expires) x.jobs ≡ true) (sym t)
            (renew_lease-held run_id worker_id expires d.jobs renewed)
      | inr (x, e) ↦ let h' = rw e at h in absurd (ground arith)
    ]

abbrev pub says_renewed : Result Code Bool → Bool
says_renewed (ok renewed) = renewed
says_renewed (err e) = false

-- Whatever becomes of the statements on the way: when RenewLease answers that the lease is renewed, a
-- job of that run is leased to the calling worker until the lease duration from now.
pub renewed_until :
    (run_id worker_id : String) (s : State)
    → says_renewed (renew_lease_call run_id (some worker_id) s).0 ≡ true
    → any
        (is_held_until run_id worker_id (s.db.clock + s.service.lease_duration))
        (renew_lease_call run_id (some worker_id) s).1.db.jobs
      ≡ true
unfolding renew_lease_call
renewed_until run_id worker_id s h =
    let s' = touch_worker_heartbeat worker_id s in
    let (clock, duration) = touch_worker_heartbeat-clock worker_id s in
    subst
      (λ e.
        any (is_held_until run_id worker_id e)
          (renew_lease_call run_id (some worker_id) s).1.db.jobs
        ≡ true)
      (ap (λ c. c + s'.service.lease_duration) clock ∙ ap (λ l. s.db.clock + l) duration)
      (renew_statement-held run_id worker_id (s'.db.clock + s'.service.lease_duration) s'.db h)
