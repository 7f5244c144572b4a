-- ===== src/Commands/Agent.antt =====
-- What holds of the worker's settings, whatever the environment (cmd/worker/main.go).
use openseer.Base.{
  ◌*◌, ◌<◌, String, ◌≡◌, refl, ap, subst, ◌≢◌, inl, inr, Option, none, some, [], arith, Bool-cases,
  string_eq, nat_eq, ◌==◌, str_eq_iff,
}
use openseer.Base.Int.{ℤ, pos}
use openseer.Commands.{get_env, get_env_positive, get_env_int, worker_agent}
use openseer.Commands.Settings.{positive_or-lt}
use openseer.Worker.{Worker, second, new_worker, with_polling_config, with_result_retry_config}
use openseer.Worker.Backoff.{IsConfigured, with_polling_config-IsConfigured}

abbrev agent_or : Worker → Option Worker → Worker
agent_or d none = d
agent_or d (some w) = w

-- An agent that can start.
pub record CanStart (w : Worker) : Type 0 where
  pub intervals : IsConfigured w
  pub attempts : 0 < w.result_submit_max_attempts
  pub retry : 0 < w.result_submit_retry_interval
  pub timeout : 0 < w.result_submit_timeout
  pub renewal : 0 < w.lease_renewal_interval
  pub authorized : w.cluster_token ≢ ""
  pub idle : w.active_jobs ≡ []

-- Whatever the environment is, when the worker's command goes on the agent has a cluster token and no
-- active job, its intervals and timeouts are positive, it polls no slower at first than later, and it
-- submits a result at least once.
pub worker_agent-CanStart :
    (atoi parse_duration : String → Option ℤ) (now_id : String) (env : String → String) {w : Worker}
    → worker_agent atoi parse_duration now_id env ≡ some w
    → CanStart w
unfolding worker_agent with_result_retry_config with_polling_config new_worker
worker_agent-CanStart atoi parse_duration now_id env {w} h =
    elim (Bool-cases (get_env env "CLUSTER_TOKEN" "" == "")) [
      | inl e ↦ let h' = rw e at h in absurd (ground arith)
      | inr e ↦ subst CanStart (ap (agent_or w) (rw e at h)) (record {
        intervals =
            let c =
              with_polling_config-IsConfigured
                (get_env_positive parse_duration env "POLL_BASE_INTERVAL" (pos second))
                (get_env_positive parse_duration env "POLL_MAX_INTERVAL" (pos (10 * second))) w in
            record { positive = c.positive; ordered = c.ordered };
        attempts =
            positive_or-lt (get_env_int atoi env "RESULT_SUBMIT_MAX_ATTEMPTS" (pos 6)) 1
              (omega arith);
        retry =
            positive_or-lt
              (get_env_positive parse_duration env "RESULT_SUBMIT_RETRY_INTERVAL"
                (pos (5 * second)))
              (5 * second) (omega arith);
        timeout =
            positive_or-lt
              (get_env_positive parse_duration env "RESULT_SUBMIT_TIMEOUT" (pos (10 * second)))
              (10 * second) (omega arith);
        renewal = omega arith;
        authorized = λ z. absurd (ground (arith, str_eq_iff (get_env env "CLUSTER_TOKEN" "") ""));
        idle = refl;
      })
    ]
