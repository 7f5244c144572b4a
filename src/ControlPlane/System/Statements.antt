-- ===== src/ControlPlane/System/Statements.antt =====
-- What the calls of api/worker/service.go (internal/app/control-plane) do to app.jobs, as sequences of
-- single statements.
use openseer.Base.{
  ℕ, String, ◌≡◌, refl, sym, ap, ◌∙◌, Option, none, some, List, [], ◌∷◌, ◌++◌, All, All-append,
}
use openseer.ControlPlane.WorkerService.{State}
use openseer.ControlPlane.WorkerService.Calls.{
  WorkerCall, ask_jobs, give_result, keep_lease, worker_call, Acts, worker_call-keeps,
}
use openseer.Store.Db.{Database, Db, statement, statement_keeps}
use openseer.Store.Jobs.{AppJob}
use openseer.Store.Jobs.Lifecycle.{JobOp, apply, apply_all}

-- Which statements on app.jobs may be made, and at which instants.
abbrev pub Rule : Type 1
Rule = ℕ → JobOp → Type 0

abbrev pub Meets : Rule → ℕ × JobOp → Type 0
Meets may (now, op) = may now op

-- A table that statements under a rule make of another.
abbrev pub Reaches : Rule → List AppJob → List AppJob → Type 0
Reaches may from to = (ops : List (ℕ × JobOp)) × All (Meets may) ops × (to ≡ apply_all ops from)

apply_all-append :
    (xs : List (ℕ × JobOp)) (now : ℕ) (op : JobOp) (jobs : List AppJob)
    → apply_all (xs ++ (now, op) ∷ []) jobs ≡ apply now op (apply_all xs jobs)
unfolding apply_all
apply_all-append [] now op jobs = refl
apply_all-append ((t, x) ∷ xs) now op jobs = apply_all-append xs now op (apply t x jobs)

pub Reaches-self : (may : Rule) (jobs : List AppJob) → Reaches may jobs jobs
unfolding apply_all
Reaches-self may jobs = ([], tt, refl)

module _ (may : Rule) (from : List AppJob) where
  pub then_op :
      (now : ℕ) (op : JobOp)
      → may now op
      → (jobs : List AppJob) → Reaches may from jobs
      → Reaches may from (apply now op jobs)
  then_op now op allowed jobs (ops, each, e) = (
    ops ++ (now, op) ∷ [],
    All-append (Meets may) ops ((now, op) ∷ []) each (allowed, tt),
    ap (apply now op) e ∙ sym (apply_all-append ops now op from),
  )

  -- The clock of a database does not move while statements run.
  abbrev pub OnDb : ℕ → Database → Type 0
  OnDb clock d = (d.clock ≡ clock) × Reaches may from d.jobs

  pub statement_reaches :
      {A : Type 0} (q : Db A) (clock : ℕ)
      → ((d : Database) → OnDb clock d → OnDb clock (q d).1)
      → (d : Database) → OnDb clock d
      → OnDb clock (statement q d).1
  statement_reaches q clock keep d h = statement_keeps (OnDb clock) q (λ t fs k. k) keep d h

-- What a call of a worker may do: nothing without a worker, else what is for that worker.
abbrev pub WorkerRule : WorkerCall → Option String → ℕ → Rule
WorkerRule call none clock now op = ⊥
WorkerRule call (some w) clock now op = (now ≡ clock) × Acts call w op

-- A call of a worker, whatever becomes of its statements.
pub worker_call-Reaches :
    (call : WorkerCall) (worker : Option String) (s : State)
    → Reaches (WorkerRule call worker s.db.clock) s.db.jobs (worker_call call worker s).db.jobs
unfolding worker_call
worker_call-Reaches (ask_jobs locked max_jobs) none s = Reaches-self _ s.db.jobs
worker_call-Reaches (give_result result) none s = Reaches-self _ s.db.jobs
worker_call-Reaches (keep_lease run_id) none s = Reaches-self _ s.db.jobs
worker_call-Reaches call (some id) s =
    let may = WorkerRule call (some id) s.db.clock in
    (worker_call-keeps (Acts call id) (OnDb may s.db.jobs s.db.clock) id
      (record {
        faulty = λ d fs k. k;
        acted = λ op made d k. (k.0, then_op may s.db.jobs d.clock op (k.0, made) d.jobs k.1);
        beaten = λ d k. k;
        recorded = λ d results k. k;
      })
      call s (λ op made. made) (refl, Reaches-self may s.db.jobs)).1
