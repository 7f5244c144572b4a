-- ===== src/Tests/Agent.antt =====
-- Concrete runs of the worker agent (internal/app/worker).
use openseer.Base.{
  ◌*◌, ◌^◌, String, ◌≡◌, refl, true, false, ◌&&◌, List, [], ◌∷◌, arith, if◌then◌else◌, string_eq,
  nat_eq, ◌==◌,
}
use openseer.Base.Int.{pos}
use openseer.Worker.{Worker, answered, rejected_token, failed_call, is_job_active}
use openseer.Worker.Backoff.{IsConfigured, idle, least, idle_doubles}
use openseer.Worker.Submit.{Round, still_running, send_loop, send_result}
use openseer.Worker.Submit.Ends.{
  runs_on, send_loop-ends, renewals_run_on, is_released, send_result-releases,
}

abbrev pub an_agent : Worker
an_agent = record {
  id = "w1";
  region = "eu";
  version = "0.4.0";
  enrollment_url = "http://localhost:8080";
  cluster_token = "c1";
  api_endpoint = "http://localhost:8080";
  api_token = "t1";
  max_concurrency = pos 5;
  active_jobs = "r1" ∷ "r2" ∷ [];
  poll_base_interval = 1_000_000_000;
  poll_max_interval = 10_000_000_000;
  lease_renewal_threshold = pos 20_000;
  lease_renewal_interval = 10_000_000_000;
  result_submit_max_attempts = 2;
  result_submit_retry_interval = 5_000_000_000;
  result_submit_timeout = 10_000_000_000;
}

an_agent-IsConfigured : IsConfigured an_agent
an_agent-IsConfigured = record { positive = omega arith; ordered = omega arith }

idle_doubles_example : idle an_agent true 3 ≡ least (1_000_000_000 * 2 ^ 3) 10_000_000_000
idle_doubles_example = idle_doubles an_agent true 3 an_agent-IsConfigured

abbrev run_two : String
run_two = "r2"

-- A rejected token that is renewed; a call that fails; a result that is not committed.
abbrev renewal_round : Round
renewal_round = record { active = true; answer = rejected_token; renewed = true; waited = true }

abbrev failed_round : Round
failed_round = record { active = true; answer = failed_call; renewed = false; waited = true }

abbrev uncommitted_round : Round
uncommitted_round = record {
  active = true;
  answer = answered false;
  renewed = false;
  waited = true;
}

abbrev some_rounds : List Round
some_rounds = failed_round ∷ renewal_round ∷ uncommitted_round ∷ []

send_loop-ends_example : runs_on (send_loop 2 1 some_rounds) ≡ false
send_loop-ends_example = send_loop-ends 2 1 some_rounds (omega arith)

renewals_run_on_example :
    send_loop 2 1 (renewal_round ∷ renewal_round ∷ renewal_round ∷ []) ≡ still_running
renewals_run_on_example =
    renewals_run_on 2 1 (renewal_round ∷ renewal_round ∷ renewal_round ∷ []) (omega arith)
      (refl, (refl, (refl, tt)))

send_result-releases_example : is_job_active "r2" (send_result "r1" some_rounds an_agent).1 ≡ (
    if is_released (send_result "r1" some_rounds an_agent).0 && run_two == "r1"
    then false
    else is_job_active "r2" an_agent)
send_result-releases_example = send_result-releases "r2" "r1" some_rounds an_agent
