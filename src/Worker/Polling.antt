-- ===== src/Worker/Polling.antt =====
-- The calls of internal/app/worker/worker.go and polling.go that enroll the agent, fetch jobs and keep
-- leases. What the network answers is an argument.
pub mod Capacity
use openseer.Base.{
  ℕ, String, Bool, true, false, ◌&&◌, Option, none, some, List, [], ◌∷◌, if◌then◌else◌, length,
}
use openseer.Base.Int.{ℤ, pos, negsuc}
use openseer.ControlPlane.WorkerService.{MonitorJob}
use openseer.Worker.{
  Worker, Answer, answered, rejected_token, failed_call, RenewEnrollmentResponse, refresh_api_token,
  available, start_job,
}
use openseer.Worker.Submit.{get_jobs_with_auth_recovery}

-- The reply of EnrollWorker.
pub record EnrollWorkerReply : Type 0 where
  pub accepted : Bool
  pub worker_id : String
  pub api_token : String
  pub api_endpoint : String

-- Whether Run goes on to the polling loop.
unfoldable pub enroll : Answer EnrollWorkerReply → Worker → Bool × Worker
enroll (answered r) w =
    if r.accepted
    then (
      true,
      record w { id = r.worker_id; api_token = r.api_token; api_endpoint = r.api_endpoint },
    )
    else (false, w)
enroll rejected_token w = (false, w)
enroll failed_call w = (false, w)

-- Each received job is started at once, and registers itself.
unfoldable pub start_jobs : List MonitorJob → Worker → Worker
unfolding start_job
start_jobs [] w = w
start_jobs (job ∷ jobs) w = start_jobs jobs (start_job job.run_id w)

-- jobsReceived and whether pollErr is not nil.
pub record Poll : Type 0 where
  pub jobs_received : ℤ
  pub failed : Bool

abbrev pub poll_outcome : Answer (List MonitorJob) → Worker → Poll × Worker
poll_outcome (answered jobs) w =
    (record { jobs_received = pos (length jobs); failed = false }, start_jobs jobs w)
poll_outcome rejected_token w = (record { jobs_received = pos 0; failed = true }, w)
poll_outcome failed_call w = (record { jobs_received = pos 0; failed = true }, w)

-- `ask` and `ask_again` say what GetJobs answers to the number asked for.
abbrev pub poll_with :
    (ℕ → Answer (List MonitorJob))
    → Answer RenewEnrollmentResponse
    → (ℕ → Answer (List MonitorJob))
    → Option ℕ
    → Worker
    → Poll × Worker
poll_with ask renewal ask_again none w = (record { jobs_received = negsuc 0; failed = false }, w)
poll_with ask renewal ask_again (some n) w =
    let (answer, w') = get_jobs_with_auth_recovery (ask n) renewal (ask_again n) w in
    poll_outcome answer w'

unfoldable pub poll_for_jobs :
    (ℕ → Answer (List MonitorJob))
    → Answer RenewEnrollmentResponse
    → (ℕ → Answer (List MonitorJob))
    → Worker
    → Poll × Worker
unfolding start_jobs available get_jobs_with_auth_recovery
poll_for_jobs ask renewal ask_again w = poll_with ask renewal ask_again (available w) w

-- What one tick of renewLease meets: the answers of RenewLease before and after a renewal of the token.
pub record RenewalTick : Type 0 where
  pub first_answer : Answer Bool
  pub renewal : Answer RenewEnrollmentResponse
  pub second_answer : Answer Bool

abbrev pub is_renewed : Answer Bool → Bool
is_renewed (answered b) = b
is_renewed rejected_token = false
is_renewed failed_call = false

-- Whether the loop goes on.
unfoldable pub renewal_tick : RenewalTick → Worker → Bool × Worker
unfolding refresh_api_token
renewal_tick t w = elim t.first_answer [
  | answered b ↦ (b, w)
  | rejected_token ↦
      let (refreshed, w') = refresh_api_token t.renewal w in
      (refreshed && is_renewed t.second_answer, w')
  | failed_call ↦ (false, w)
]

-- The loop over the ticks until the context is done: whether it still runs then.
unfoldable pub renew_lease : List RenewalTick → Worker → Bool × Worker
unfolding renewal_tick
renew_lease [] w = (true, w)
renew_lease (t ∷ ticks) w =
    let (goes_on, w') = renewal_tick t w in
    let rest = renew_lease ticks w' in if goes_on then rest else (false, w')
