-- ===== src/ControlPlane/Token/Requests.antt =====
-- Requests to the worker service (internal/app/control-plane/api/worker/service.go) behind the authentication
-- of internal/app/control-plane/middleware/token_auth.go, as cmd/control-plane composes them.
use mathlib.Core.List.{Mem}
use openseer.Base.{
  ℕ, String, ◌≡◌, refl, sym, ap, ◌∙◌, subst, ◌≢◌, inl, inr, Bool, true, false, Option, none, some,
  List, [], ◌∷◌, arith, Bool-cases, Option-cases, All, find, All-imp, All-Mem, str_eq_iff, Result,
  ok, err,
}
use openseer.ControlPlane.WorkerService.Calls.{
  WorkerCall, worker_call, MadeBy, Acts-MadeBy, IsKept, worker_call-keeps,
}
use openseer.Store.Jobs.{
  AppJob, held_by, update_where, update_one, lease_row, lease_jobs_with_fallback, owns_lease,
  renew_lease, complete_job,
}
use openseer.Store.Jobs.Lifecycle.{
  JobOp, create, create_idempotent, lease, renew, complete, reclaim, clean, delete_open, apply,
}
use openseer.ControlPlane.Token.{
  parse_bearer_token, Access, cached, token_query, remember, resolve, authenticate_token,
  authenticate_worker_token, worker_id_from_context, Next, authorized,
  token_auth_handler_with_cache,
}
use openseer.ControlPlane.WorkerService.{WorkerService}
use openseer.Store.Db.{Fault, Database, statement, statement_keeps}
use openseer.Store.Jobs.Exclusive.{held_by_ne}
use openseer.Store.Errors.{DbError}
use openseer.Store.Workers.{AppWorker}
use openseer.ControlPlane.AuthCache.{WorkerAuthCache}

-- Each job that `owner` has is a row of the old table.
abbrev pub TookNothing : String → List AppJob → List AppJob → Type 0
TookNothing owner old jobs = All (λ j. held_by owner j.worker_id ≡ true → Mem j old) jobs

pub TookNothing-self : (owner : String) (jobs : List AppJob) → TookNothing owner jobs jobs
TookNothing-self owner jobs = All-imp _ _ (λ j here h. here) jobs (All-Mem jobs)

module _ (owner : String) (old : List AppJob) where
  -- An UPDATE that gives `owner` none of the rows it changes.
  update-TookNothing :
      (p : AppJob → Bool) (f : AppJob → AppJob)
      → ((j : AppJob) → p j ≡ true → held_by owner (f j).worker_id ≡ false)
      → (jobs : List AppJob) → TookNothing owner old jobs
      → TookNothing owner old (update_where p f jobs)
  update-TookNothing p f gives [] h = tt
  update-TookNothing p f gives (j ∷ jobs) h = (
    elim (Bool-cases (p j)) [
      | inl e ↦ let g = gives j e in rw e (λ k. absurd (ground arith))
      | inr e ↦ rw e h.0
    ],
    update-TookNothing p f gives jobs h.1,
  )

  update_one-TookNothing :
      (p : AppJob → Bool) (f : AppJob → AppJob)
      → ((j : AppJob) → p j ≡ true → held_by owner (f j).worker_id ≡ false)
      → (jobs : List AppJob) → TookNothing owner old jobs
      → TookNothing owner old (update_one p f jobs).1
  unfolding update_one
  update_one-TookNothing p f gives jobs h = elim (Option-cases (find p jobs)) [
    | inl e ↦ rw (e, update_one) h
    | inr (x, e) ↦ rw (e, update_one) (update-TookNothing p f gives jobs h)
  ]

  other_holder :
      (run_id w : String) (j : AppJob)
      → owner ≢ w
      → owns_lease run_id w j ≡ true
      → held_by owner j.worker_id ≡ false
  other_holder run_id w j n h = elim (Option-cases j.worker_id) [
    | inl e ↦ rw e refl
    | inr (v, e) ↦ let h' = rw e at h in rw e (ground (arith, str_eq_iff v w, str_eq_iff v owner))
  ]

  -- A statement that acts for another worker.
  pub made-TookNothing :
      (w : String)
      → owner ≢ w
      → (now : ℕ) (op : JobOp) → MadeBy w op
      → (jobs : List AppJob) → TookNothing owner old jobs
      → TookNothing owner old (apply now op jobs)
  unfolding apply lease_jobs_with_fallback renew_lease complete_job
  made-TookNothing w n now (lease locked p) made jobs h =
      update-TookNothing _ (lease_row p) (λ j t. rw made (held_by_ne owner w n)) jobs h
  made-TookNothing w n now (renew run_id v expires) made jobs h =
      update_one-TookNothing (owns_lease run_id v) _
        (λ j t. other_holder run_id v j (subst (λ x. owner ≢ x) (sym made) n) t) jobs h
  made-TookNothing w n now (complete run_id v) made jobs h =
      update_one-TookNothing (owns_lease run_id v) _
        (λ j t. other_holder run_id v j (subst (λ x. owner ≢ x) (sym made) n) t) jobs h
  made-TookNothing w n now (create p) made jobs h = elim made [ ]
  made-TookNothing w n now (create_idempotent p start end) made jobs h = elim made [ ]
  made-TookNothing w n now reclaim made jobs h = elim made [ ]
  made-TookNothing w n now (clean cutoff limit) made jobs h = elim made [ ]
  made-TookNothing w n now (delete_open monitor_id) made jobs h = elim made [ ]

-- The handler of the worker service, with its answer left out.
abbrev pub worker_handler : WorkerCall → Next WorkerService (Unit {0})
worker_handler call ctx (service, a) =
    let s =
      worker_call call (worker_id_from_context ctx) (record { service = service; db = a.db }) in
    (tt, (s.service, record a { db = s.db }))

-- What the lookup of a token keeps of the database.
pub authenticate-keeps :
    (P : Database → Type 0)
    → ((d : Database) (fs : List Fault) → P d → P (record d { faults = fs }))
    → (hash_token : String → String) (now : ℕ) (token : Option String) (a : Access) → P a.db
    → P (authenticate_token hash_token now token a).1.db
authenticate-keeps P faulty hash_token now none a h = h
authenticate-keeps P faulty hash_token now (some token) a h =
    resolved (hash_token token) (cached now (hash_token token) a.cache).0
      (cached now (hash_token token) a.cache).1
  where
    remembered :
        (hash : String) (r : Result DbError AppWorker) (b : Access)
        → P b.db
        → P (remember now hash r b).1.db
    remembered hash (ok w) b k = k
    remembered hash (err e) b k = k

    resolved :
        (hash : String) (worker : Option String) (cache : Option WorkerAuthCache)
        → P (resolve now hash worker (record a { cache = cache })).1.db
    resolved hash (some w) cache = h
    resolved hash none cache =
        let (found, db) = statement (token_query hash) a.db in
        remembered hash found (record { cache = cache; db = db })
          (statement_keeps P (token_query hash) faulty (λ t k. k) a.db h)

-- What the handler keeps of the database, when it keeps it for the worker of the context.
pub authorized-keeps :
    (P : Database → Type 0) (call : WorkerCall) (service : WorkerService) (worker : Option String)
    (a : Access)
    → ((w : String) → worker ≡ some w → IsKept (MadeBy w) w P)
    → P a.db
    → P (authorized (worker_handler call) service (worker, a)).1.1.db
authorized-keeps P call service none a kept h = h
authorized-keeps P call service (some w) a kept h =
    worker_call-keeps (MadeBy w) P w (kept w refl) call (record { service = service; db = a.db })
      (Acts-MadeBy call w) h

taken-IsKept :
    (owner : String) (old : List AppJob) (w : String)
    → owner ≢ w
    → IsKept (MadeBy w) w (λ d. TookNothing owner old d.jobs)
taken-IsKept owner old w n = record {
  faulty = λ d fs h. h;
  acted = λ op made d h. made-TookNothing owner old w n d.clock op made d.jobs h;
  beaten = λ d h. h;
  recorded = λ d results h. h;
}

-- A request that does not authenticate as a worker gives it no job: each job that the worker has after the
-- request is a row of the table before, as it was. Whatever the call and the faults of its statements.
pub request_takes_nothing :
    (hash_token : String → String) (decodes : String → Bool) (call : WorkerCall) (now : ℕ)
    (header : String) (service : WorkerService) (a : Access) (owner : String)
    → (authenticate_worker_token hash_token decodes now header a).0 ≢ some owner
    → TookNothing owner a.db.jobs
        (token_auth_handler_with_cache hash_token decodes
          (worker_handler call)
          now
          header
          (service, a)).1.1.db.jobs
unfolding token_auth_handler_with_cache authenticate_worker_token
request_takes_nothing hash_token decodes call now header service a owner n =
    let token = parse_bearer_token decodes header in
    let P : Database → Type 0 = λ d. TookNothing owner a.db.jobs d.jobs in
    authorized-keeps P call service (authenticate_token hash_token now token a).0
      (authenticate_token hash_token now token a).1
      (λ w e. taken-IsKept owner a.db.jobs w (λ same. n (e ∙ ap some (sym same))))
      (authenticate-keeps P (λ d fs h. h) hash_token now token a (TookNothing-self owner a.db.jobs))
