-- ===== src/Worker.antt =====
-- internal/app/worker/worker.go and polling.go: the agent that polls for jobs and submits results. The
-- network's answers are arguments; goroutines are left to the caller's order of the calls.
pub mod Backoff
pub mod Submit
pub mod Polling
pub mod Executor
use openseer.Base.{
  ℕ, zero, suc, ◌-◌, ◌*◌, String, Bool, true, false, not, ◌&&◌, ◌||◌, Option, none, some, List, [],
  ◌∷◌, ltb, leb, if◌then◌else◌, length, filter, any, string_eq, nat_eq, ◌==◌,
}
use openseer.Base.Int.{ℤ, pos, negsuc, positive_or}

pub record Worker : Type 0 where
  pub id : String
  pub region : String
  pub version : String
  pub enrollment_url : String
  pub cluster_token : String
  pub api_endpoint : String
  pub api_token : String
  pub max_concurrency : ℤ
  -- The keys of activeJobs.
  pub active_jobs : List String
  pub poll_base_interval : ℕ
  pub poll_max_interval : ℕ
  pub lease_renewal_threshold : ℤ
  pub lease_renewal_interval : ℕ
  pub result_submit_max_attempts : ℕ
  pub result_submit_retry_interval : ℕ
  pub result_submit_timeout : ℕ

-- Nanoseconds in a second.
abbrev pub second : ℕ
second = 1_000_000_000

unfoldable pub new_worker : String → String → String → String → String → ℤ → Worker
new_worker id region version enrollment_url cluster_token max_concurrency = record {
  id = id;
  region = region;
  version = version;
  enrollment_url = enrollment_url;
  cluster_token = cluster_token;
  api_endpoint = "";
  api_token = "";
  max_concurrency = max_concurrency;
  active_jobs = [];
  poll_base_interval = second;
  poll_max_interval = 10 * second;
  lease_renewal_threshold = pos 20_000;
  lease_renewal_interval = 10 * second;
  result_submit_max_attempts = 6;
  result_submit_retry_interval = 5 * second;
  result_submit_timeout = 10 * second;
}

abbrev pub positive_threshold : ℤ → ℤ → ℤ
positive_threshold (pos zero) old = old
positive_threshold (pos (suc n)) old = pos (suc n)
positive_threshold (negsuc n) old = old

unfoldable pub with_lease_renewal_config : ℤ → ℤ → Worker → Worker
with_lease_renewal_config threshold interval w = record w {
  lease_renewal_threshold = positive_threshold threshold w.lease_renewal_threshold;
  lease_renewal_interval = positive_or interval w.lease_renewal_interval;
}

-- `if x < least { x = least }`
abbrev pub at_least : ℕ → ℤ → ℕ
at_least least (pos n) = if ltb n least then least else n
at_least least (negsuc n) = least

unfoldable pub with_polling_config : ℤ → ℤ → Worker → Worker
with_polling_config base_interval max_interval w = record w {
  poll_base_interval = positive_or base_interval second;
  poll_max_interval = at_least (positive_or base_interval second) max_interval;
}

unfoldable pub with_result_retry_config : ℤ → ℤ → ℤ → Worker → Worker
with_result_retry_config max_attempts retry_interval submit_timeout w = record w {
  result_submit_max_attempts = positive_or max_attempts 1;
  result_submit_retry_interval = positive_or retry_interval (5 * second);
  result_submit_timeout = positive_or submit_timeout (10 * second);
}

abbrev pub is_negative : ℤ → Bool
is_negative (pos n) = false
is_negative (negsuc n) = true

abbrev pub is_positive : ℤ → Bool
is_positive (pos zero) = false
is_positive (pos (suc n)) = true
is_positive (negsuc n) = false

-- next := current * 2, kept between the base and the maximum. It overflows an int64 for a maximum
-- beyond 146 years only.
abbrev pub doubled : Worker → ℕ → ℕ
doubled w current =
    let next =
      if ltb (current * 2) w.poll_base_interval then w.poll_base_interval else current * 2 in
    if ltb w.poll_max_interval next then w.poll_max_interval else next

-- `failed` says whether pollErr is not nil.
unfoldable pub next_poll_interval : Worker → ℕ → ℤ → Bool → ℕ
next_poll_interval w current jobs_received failed =
    let from = if ltb current w.poll_base_interval then w.poll_base_interval else current in
    if is_negative jobs_received || (not failed && is_positive jobs_received)
    then w.poll_base_interval
    else doubled w from

-- How an RPC ends for the agent.
pub data Answer {ℓ} (A : Type ℓ) : Type ℓ where
  answered : A → Answer A
  rejected_token : Answer A
  failed_call : Answer A

-- The reply of RenewEnrollment: renewed or not, with a token.
pub record RenewEnrollmentResponse : Type 0 where
  pub renewed : Bool
  pub api_token : String

abbrev pub store_token : Answer RenewEnrollmentResponse → Worker → Bool × Worker
store_token (answered r) w =
    if not r.renewed || r.api_token == ""
    then (false, w)
    else (true, record w { api_token = r.api_token })
store_token rejected_token w = (false, w)
store_token failed_call w = (false, w)

-- Whether the token was renewed.
unfoldable pub refresh_api_token : Answer RenewEnrollmentResponse → Worker → Bool × Worker
refresh_api_token answer w = if w.id == "" then (false, w) else store_token answer w

-- How many jobs the agent asks for: none when it has no room.
unfoldable pub available : Worker → Option ℕ
available w = elim w.max_concurrency [
  | pos n ↦ if leb n (length w.active_jobs) then none else some (n - length w.active_jobs)
  | negsuc n ↦ none
]

-- w.activeJobs[runID] = cancel
unfoldable pub start_job : String → Worker → Worker
start_job run_id w =
    if any (λ r. r == run_id) w.active_jobs
    then w
    else record w { active_jobs = run_id ∷ w.active_jobs }

unfoldable pub cancel_all_jobs : Worker → Worker
cancel_all_jobs w = record w { active_jobs = [] }

unfoldable pub complete_job : String → Worker → Worker
complete_job run_id w = record w { active_jobs = filter (λ r. not (r == run_id)) w.active_jobs }

unfoldable pub is_job_active : String → Worker → Bool
is_job_active run_id w = any (λ r. r == run_id) w.active_jobs
