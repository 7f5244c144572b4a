-- ===== src/Worker/Polling/Capacity.antt =====
-- How many jobs run at once (internal/app/worker/polling.go), with the control plane's GetJobs
-- (internal/app/control-plane/api/worker/service.go) at the other end.
use openseer.Base.{
  ℕ, zero, suc, ◌+◌, ◌-◌, ◌≤◌, ◌<◌, String, ◌≡◌, refl, sym, ap, inl, inr, Bool, true, false, not,
  ◌&&◌, ◌||◌, Option, none, some, List, [], ◌∷◌, map, arith, leb, if◌then◌else◌, Bool-cases,
  Option-cases, is_none, length, filter, find, length-take-le, string_eq, nat_eq, ◌==◌, Result, ok,
  err, Result-cases,
}
use openseer.ControlPlane.WorkerService.{
  Code, unauthenticated, not_found, invalid_argument, internal, State, MonitorJob, monitor_job,
  lease_query, jobs_outcome, lease_for, get_jobs,
}
use openseer.Store.Dispatch.{join_monitors, lease_jobs_with_monitor_data}
use openseer.Store.Jobs.{
  AppJob, LeaseJobsParams, can_lease, before, pick, lease_row, lease_jobs_with_fallback,
}
use openseer.Store.Monitors.{AppMonitor}
use openseer.Worker.{
  Worker, second, Answer, answered, rejected_token, failed_call, RenewEnrollmentResponse,
  store_token, refresh_api_token, available, start_job,
}
use openseer.Base.Int.{ℤ, pos, negsuc}
use openseer.Base.Sort.{sort}
use openseer.Store.Db.{Database, statement, statement_ok}
use openseer.Store.Errors.{DbError}
use openseer.Store.Workers.{AppWorker}
use openseer.Worker.Polling.{start_jobs, poll_outcome, poll_with, poll_for_jobs}
use openseer.Worker.Submit.{get_jobs_with_auth_recovery}

-- The answer that the agent's client makes of a call.
abbrev pub reply : {A : Type 0} → Result Code A → Answer A
reply (ok a) = answered a
reply (err unauthenticated) = rejected_token
reply (err not_found) = failed_call
reply (err invalid_argument) = failed_call
reply (err internal) = failed_call

-- At most `n` jobs are handed out.
abbrev AtMost : ℕ → Answer (List MonitorJob) → Type 0
AtMost n (answered jobs) = length jobs ≤ n
AtMost n rejected_token = Unit
AtMost n failed_call = Unit

length-join_monitors :
    (monitors : List AppMonitor) (jobs : List AppJob)
    → length (join_monitors monitors jobs) ≤ length jobs
unfolding join_monitors
length-join_monitors monitors [] = omega arith
length-join_monitors monitors (j ∷ jobs) =
    elim (Option-cases (find (λ m. m.id == j.monitor_id && is_none m.deleted_at) monitors)) [
      | inl e ↦ rw (e, join_monitors) (omega (arith, length-join_monitors monitors jobs))
      | inr (m, e) ↦ rw (e, join_monitors) (omega (arith, length-join_monitors monitors jobs))
    ]

length-map {ℓ κ} :
    {A : Type ℓ} {B : Type κ} (f : A → B) (xs : List A) → length (map f xs) ≡ length xs
length-map f [] = refl
length-map f (x ∷ xs) = ap suc (length-map f xs)

leased_at_most :
    (now : ℕ) (locked : String → Bool) (p : LeaseJobsParams) (monitors : List AppMonitor)
    (jobs : List AppJob)
    → length (lease_jobs_with_monitor_data now locked p monitors jobs).0 ≤ p.limit
unfolding lease_jobs_with_monitor_data lease_jobs_with_fallback pick
leased_at_most now locked p monitors jobs = omega (
  arith,
  length-join_monitors monitors (map (lease_row p) (pick now locked p jobs)),
  length-map (lease_row p) (pick now locked p jobs),
  length-take-le p.limit (sort (before p.region) (filter (can_lease now locked p.region) jobs)),
)

abbrev list_or {ℓ κ} : {E : Type ℓ} {A : Type κ} → List A → Result E (List A) → List A
list_or d (ok xs) = xs
list_or d (err e) = d

answer-AtMost :
    (locked : String → Bool) (p : LeaseJobsParams) (s : Database)
    → AtMost p.limit (reply (jobs_outcome (statement (lease_query locked p) s).0))
answer-AtMost locked p s = elim (Result-cases (statement (lease_query locked p) s).0) [
  | inl (rows, e) ↦
      let (fs, answer, t) = statement_ok (lease_query locked p) s e in
      let same : (lease_jobs_with_monitor_data s.clock locked p s.monitors s.jobs).0 ≡ rows =
        ap (list_or rows) answer in
      rw e (
        rw (length-map monitor_job rows, sym same)
          (leased_at_most s.clock locked p s.monitors s.jobs))
  | inr (d, e) ↦ rw e tt
]

for-AtMost :
    (locked : String → Bool) (n : ℕ) (worker_id : String) (duration : ℕ)
    (r : Result DbError AppWorker) (s : Database)
    → AtMost (suc n) (reply (lease_for locked (pos (suc n)) worker_id duration r s).0)
for-AtMost locked n worker_id duration (err e) s = tt
for-AtMost locked n worker_id duration (ok w) s = answer-AtMost locked _ s

-- GetJobs hands out at most as many jobs as it was asked for.
get_jobs-AtMost :
    (locked : String → Bool) (n : ℕ) (worker : Option String) (s : State)
    → 0 < n
    → AtMost n (reply (get_jobs locked (pos n) worker s).0)
unfolding get_jobs
get_jobs-AtMost locked zero worker s h = absurd (omega arith)
get_jobs-AtMost locked (suc n) none s h = tt
get_jobs-AtMost locked (suc n) (some id) s h = for-AtMost locked n id _ _ _

start_job-length :
    (run_id : String) (w : Worker)
    → length (start_job run_id w).active_jobs ≤ suc (length w.active_jobs)
unfolding start_job
start_job-length run_id w = ground arith

start_jobs-length :
    (jobs : List MonitorJob) (w : Worker)
    → length (start_jobs jobs w).active_jobs ≤ length jobs + length w.active_jobs
unfolding start_jobs
start_jobs-length [] w = omega arith
start_jobs-length (job ∷ jobs) w =
    omega (arith, start_jobs-length jobs (start_job job.run_id w), start_job-length job.run_id w)

-- The agent's limit on the jobs that are active; a negative setting allows none.
abbrev pub WithinCapacity : ℤ → List String → Type 0
WithinCapacity (pos m) jobs = length jobs ≤ m
WithinCapacity (negsuc m) jobs = length jobs ≤ 0

store_token_jobs :
    (answer : Answer RenewEnrollmentResponse) (w : Worker)
    → (store_token answer w).1.active_jobs ≡ w.active_jobs
store_token_jobs (answered r) w = elim (Bool-cases (not r.renewed || r.api_token == "")) [
  | inl e ↦ rw e refl
  | inr e ↦ rw e refl
]
store_token_jobs rejected_token w = refl
store_token_jobs failed_call w = refl

refresh_jobs :
    (answer : Answer RenewEnrollmentResponse) (w : Worker)
    → (refresh_api_token answer w).1.active_jobs ≡ w.active_jobs
unfolding refresh_api_token
refresh_jobs answer w = elim (Bool-cases (w.id == "")) [
  | inl e ↦ rw e refl
  | inr e ↦ rw e (store_token_jobs answer w)
]

outcome_length :
    (n : ℕ) (answer : Answer (List MonitorJob)) (w : Worker)
    → AtMost n answer
    → length (poll_outcome answer w).1.active_jobs ≤ n + length w.active_jobs
outcome_length n (answered jobs) w h = omega (arith, start_jobs-length jobs w, h)
outcome_length n rejected_token w h = omega arith
outcome_length n failed_call w h = omega arith

second-AtMost :
    (n : ℕ) (renewed : Bool) (answer : Answer (List MonitorJob))
    → AtMost n answer
    → AtMost n (if renewed then answer else failed_call)
second-AtMost n true answer h = h
second-AtMost n false answer h = tt

recovery_length :
    (n : ℕ) (first : Answer (List MonitorJob)) (renewal : Answer RenewEnrollmentResponse)
    (second : Answer (List MonitorJob)) (w : Worker)
    → AtMost n first
    → AtMost n second
    → let (answer, w') = get_jobs_with_auth_recovery first renewal second w in
      length (poll_outcome answer w').1.active_jobs ≤ n + length w.active_jobs
unfolding get_jobs_with_auth_recovery
recovery_length n (answered jobs) renewal second w h k = outcome_length n (answered jobs) w h
recovery_length n failed_call renewal second w h k = outcome_length n failed_call w tt
recovery_length n rejected_token renewal second w h k = omega (
  arith,
  outcome_length n (if (refresh_api_token renewal w).0 then second else failed_call)
      (refresh_api_token renewal w).1 (second-AtMost n (refresh_api_token renewal w).0 second k),
  ap length (refresh_jobs renewal w),
)

module _ (ask : ℕ → Answer (List MonitorJob)) (renewal : Answer RenewEnrollmentResponse)
    (ask_again : ℕ → Answer (List MonitorJob))
    (bounded : (n : ℕ) → 0 < n → AtMost n (ask n) × AtMost n (ask_again n)) where
  poll_with_room :
      (n : ℕ) (w : Worker)
      → 0 < n
      → length (poll_with ask renewal ask_again (some n) w).1.active_jobs ≤ n + length w.active_jobs
  poll_with_room n w h =
      recovery_length n (ask n) renewal (ask_again n) w (bounded n h).0 (bounded n h).1

  poll_within :
      (limit : ℤ) (w : Worker)
      → w.max_concurrency ≡ limit
      → WithinCapacity limit w.active_jobs
      → WithinCapacity limit (poll_for_jobs ask renewal ask_again w).1.active_jobs
  unfolding poll_for_jobs available
  poll_within (negsuc m) w e h = rw (e, available) h
  poll_within (pos m) w e h = elim (Bool-cases (leb m (length w.active_jobs))) [
    | inl full ↦ rw (e, available, full) h
    | inr room ↦
        rw (e, available, room)
          (omega (
            arith,
            poll_with_room (m - length w.active_jobs) (record w { max_concurrency = pos m })
                (ground arith),
            h,
          ))
  ]

-- Whatever the state of the control plane and whatever becomes of its statements: a poll of an agent with
-- no more active jobs than its maximum leaves it so, also when the token is renewed in between.
pub poll_keeps_capacity :
    (locked locked_again : String → Bool) (worker worker_again : Option String) (s t : State)
    (renewal : Answer RenewEnrollmentResponse) (w : Worker)
    → WithinCapacity w.max_concurrency w.active_jobs
    → WithinCapacity w.max_concurrency
        (poll_for_jobs
          (λ n. reply (get_jobs locked (pos n) worker s).0)
          renewal
          (λ n. reply (get_jobs locked_again (pos n) worker_again t).0)
          w).1.active_jobs
poll_keeps_capacity locked locked_again worker worker_again s t renewal w h =
    poll_within _ renewal _
      (λ n k.
        (get_jobs-AtMost locked n worker s k, get_jobs-AtMost locked_again n worker_again t k))
      w.max_concurrency w refl h
