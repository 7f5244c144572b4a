-- ===== src/Worker/Submit.antt =====
-- sendResult and the calls with a renewed token of internal/app/worker/polling.go.
pub mod Ends
use openseer.Base.{
  ℕ, suc, String, Bool, true, false, List, [], ◌∷◌, leb, if◌then◌else◌, ◌==◌, nat_eq, string_eq,
}
use openseer.Worker.{
  Worker, Answer, answered, rejected_token, failed_call, RenewEnrollmentResponse, refresh_api_token,
  complete_job,
}

-- What one round of sendResult's loop meets: whether the job is still active, what SubmitResult
-- answers (whether it is committed), whether the token was renewed after a rejection, and
-- whether the wait before the next round was not cut short.
pub record Round : Type 0 where
  pub active : Bool
  pub answer : Answer Bool
  pub renewed : Bool
  pub waited : Bool

-- How the loop ends: with a committed result, without one after the last attempt, at once (`return`)
-- because the job or the context was cancelled; or it still runs when the rounds given are over.
pub data SubmitEnd : Type 0 where
  submitted gave_up left still_running : SubmitEnd

-- What a round says: the end, the same attempt again, or the next attempt.
pub data Turn : Type 0 where
  ends : SubmitEnd → Turn
  again : Turn
  next : Turn

-- After an answer that is no success.
abbrev pub retry : ℕ → ℕ → Bool → Turn
retry max attempt waited =
    if attempt == max then ends gave_up else if waited then next else ends left

abbrev pub answer_turn : ℕ → ℕ → Round → Answer Bool → Turn
answer_turn max attempt r (answered true) = ends submitted
answer_turn max attempt r (answered false) = retry max attempt r.waited
answer_turn max attempt r rejected_token = if r.renewed then again else retry max attempt r.waited
answer_turn max attempt r failed_call = retry max attempt r.waited

unfoldable pub turn : ℕ → ℕ → Round → Turn
turn max attempt r = if r.active then answer_turn max attempt r r.answer else ends left

-- The loop `for attempt := 1; attempt <= max; attempt++`, where `again` undoes the increment.
unfoldable pub send_loop : ℕ → ℕ → List Round → SubmitEnd
unfolding turn
send_loop max attempt [] = if leb attempt max then still_running else gave_up
send_loop max attempt (r ∷ rounds) =
    let same = send_loop max attempt rounds in
    let following = send_loop max (suc attempt) rounds in
    if leb attempt max
    then (elim (turn max attempt r) [ ends e ↦ e | again ↦ same | next ↦ following ])
    else gave_up

-- The part after the loop: the slot is released unless the function returned early.
abbrev pub release : String → SubmitEnd → Worker → Worker
release run_id submitted w = complete_job run_id w
release run_id gave_up w = complete_job run_id w
release run_id left w = w
release run_id still_running w = w

unfoldable pub send_result : String → List Round → Worker → SubmitEnd × Worker
unfolding send_loop
send_result run_id rounds w =
    let end = send_loop w.result_submit_max_attempts 1 rounds in (end, release run_id end w)

-- getJobsWithAuthRecovery: a second call after a rejected token that was renewed.
unfoldable pub get_jobs_with_auth_recovery {ℓ} :
    {A : Type ℓ} → Answer A → Answer RenewEnrollmentResponse → Answer A → Worker → Answer A × Worker
unfolding refresh_api_token
get_jobs_with_auth_recovery (answered a) renewal second_answer w = (answered a, w)
get_jobs_with_auth_recovery failed_call renewal second_answer w = (failed_call, w)
get_jobs_with_auth_recovery rejected_token renewal second_answer w =
    let (renewed, w') = refresh_api_token renewal w in
    (if renewed then second_answer else failed_call, w')
