-- ===== src/Commands/Settings.antt =====
-- What holds of the settings, whatever the environment (cmd/control-plane/main.go and cmd/worker/main.go).
use openseer.Base.{
  ℕ, zero, suc, ◌*◌, ◌<◌, String, ◌≡◌, refl, ap, subst, ◌≢◌, inl, inr, true, false, Option, none,
  some, arith, ltb, ltb→lt, Bool-cases, string_eq, nat_eq, ◌==◌, str_eq_iff,
}
use openseer.Base.Int.{ℤ, pos, negsuc, positive_or, exceeds}
use openseer.Commands.{
  get_env, positive_parsed, get_env_positive, ControlPlaneSettings, idle_within, control_plane,
}
use openseer.ControlPlane.AuthCache.{new_worker_auth_cache, enabled}
use openseer.ControlPlane.Heartbeats.{new_heartbeat_tracker}
use openseer.ControlPlane.JobCleaner.{new_job_cleaner}
use openseer.ControlPlane.WorkerService.{new_worker_service}
use openseer.Worker.{second}

abbrev pub IsPositive : ℤ → Type 0
IsPositive (pos n) = 0 < n
IsPositive (negsuc n) = ⊥

-- What the intervals, limits and tokens must be for the tickers to start and the services to run.
pub record AreSound (c : ControlPlaneSettings) : Type 0 where
  pub open_conns : IsPositive c.max_open_conns
  pub idle_conns : IsPositive c.max_idle_conns
  pub within : exceeds c.max_idle_conns c.max_open_conns ≡ false
  pub lifetime : IsPositive c.conn_max_lifetime
  pub idle_time : IsPositive c.conn_max_idle_time
  pub authorized : c.cluster_token ≢ ""
  pub reaper : IsPositive c.lease_reaper_interval
  pub inactivity : IsPositive c.inactivity_interval
  pub scheduler : IsPositive c.scheduler_interval
  pub cleaner : 0 < c.job_cleaner.interval
  pub retention : 0 < c.job_cleaner.retention_period
  pub batch : 0 < c.job_cleaner.batch_size
  pub lease : 0 < c.worker_service.lease_duration
  pub heartbeat : IsPositive c.worker_service.heartbeats.interval
  pub cache : enabled c.worker_auth_cache ≡ true

pub positive_or-lt : (x : ℤ) (d : ℕ) → 0 < d → 0 < positive_or x d
positive_or-lt (pos zero) d h = h
positive_or-lt (pos (suc n)) d h = omega arith
positive_or-lt (negsuc n) d h = h

positive_parsed-IsPositive : (d : ℕ) (r : Option ℤ) → 0 < d → IsPositive (positive_parsed (pos d) r)
positive_parsed-IsPositive d none h = h
positive_parsed-IsPositive d (some (pos n)) h = elim (Bool-cases (ltb 0 n)) [
  | inl e ↦ rw e (ltb→lt 0 n e)
  | inr e ↦ rw e h
]
positive_parsed-IsPositive d (some (negsuc n)) h = h

pub get_env_positive-IsPositive :
    (parse : String → Option ℤ) (env : String → String) (key : String) (d : ℕ)
    → 0 < d
    → IsPositive (get_env_positive parse env key (pos d))
unfolding get_env_positive
get_env_positive-IsPositive parse env key d h = elim (Bool-cases (env key == "")) [
  | inl e ↦ rw e h
  | inr e ↦ rw e (positive_parsed-IsPositive d (parse (env key)) h)
]

enabled-new :
    (ttl max_entries : ℤ) → IsPositive ttl → enabled (new_worker_auth_cache ttl max_entries) ≡ true
unfolding new_worker_auth_cache
enabled-new (pos zero) m h = absurd (omega arith)
enabled-new (pos (suc n)) (pos zero) h = refl
enabled-new (pos (suc n)) (pos (suc m)) h = ground arith
enabled-new (pos (suc n)) (negsuc m) h = refl
enabled-new (negsuc n) m h = absurd h

idle_within-IsPositive : (a b : ℤ) → IsPositive a → IsPositive b → IsPositive (idle_within a b)
idle_within-IsPositive (pos a) (pos b) h k = ground arith
idle_within-IsPositive (pos a) (negsuc b) h k = absurd k
idle_within-IsPositive (negsuc a) b h k = absurd h

idle_within_max : (a b : ℤ) → exceeds (idle_within a b) b ≡ false
idle_within_max (pos a) (pos b) = ground arith
idle_within_max (pos a) (negsuc b) = ground arith
idle_within_max (negsuc a) (pos b) = refl
idle_within_max (negsuc a) (negsuc b) = ground arith

abbrev settings_or : ControlPlaneSettings → Option ControlPlaneSettings → ControlPlaneSettings
settings_or d none = d
settings_or d (some c) = c

-- Whatever the environment is, when the control plane's command goes on it has a cluster token, all
-- intervals and limits are positive, no more idle connections than open ones, and the authentication
-- cache is on.
pub control_plane-AreSound :
    (atoi parse_duration : String → Option ℤ) (env : String → String) {c : ControlPlaneSettings}
    → control_plane atoi parse_duration env ≡ some c
    → AreSound c
unfolding control_plane new_job_cleaner new_worker_service new_heartbeat_tracker
control_plane-AreSound atoi parse_duration env {c} h =
    let number : (key : String) (d : ℕ)
        → 0 < d
        → IsPositive (get_env_positive atoi env key (pos d)) =
      get_env_positive-IsPositive atoi env in
    let duration : (key : String) (d : ℕ)
        → 0 < d
        → IsPositive (get_env_positive parse_duration env key (pos d)) =
      get_env_positive-IsPositive parse_duration env in
    elim (Bool-cases (get_env env "CLUSTER_TOKEN" "" == "")) [
      | inl e ↦ let h' = rw e at h in absurd (ground arith)
      | inr e ↦ elim (Bool-cases (get_env env "BETTER_AUTH_SECRET" "" == "")) [
        | inl f ↦ let h' = rw (e, f) at h in absurd (ground arith)
        | inr f ↦ subst AreSound (ap (settings_or c) (rw (e, f) at h)) (record {
          open_conns = number "DB_MAX_OPEN_CONNS" 100 (omega arith);
          idle_conns =
              idle_within-IsPositive (get_env_positive atoi env "DB_MAX_IDLE_CONNS" (pos 25))
                (get_env_positive atoi env "DB_MAX_OPEN_CONNS" (pos 100))
                (number "DB_MAX_IDLE_CONNS" 25 (omega arith))
                (number "DB_MAX_OPEN_CONNS" 100 (omega arith));
          within =
              idle_within_max (get_env_positive atoi env "DB_MAX_IDLE_CONNS" (pos 25))
                (get_env_positive atoi env "DB_MAX_OPEN_CONNS" (pos 100));
          lifetime = duration "DB_CONN_MAX_LIFETIME" (1800 * second) (omega arith);
          idle_time = duration "DB_CONN_MAX_IDLE_TIME" (300 * second) (omega arith);
          authorized = λ z. absurd (ground (arith, str_eq_iff (get_env env "CLUSTER_TOKEN" "") ""));
          reaper = positive_or-lt _ (5 * second) (omega arith);
          inactivity = positive_or-lt _ (30 * second) (omega arith);
          scheduler = duration "SCHEDULER_POLL_INTERVAL" second (omega arith);
          cleaner = positive_or-lt _ 60_000_000_000 (omega arith);
          retention = positive_or-lt _ 604_800_000_000_000 (omega arith);
          batch = positive_or-lt _ 1000 (omega arith);
          lease = positive_or-lt _ 45_000_000_000 (omega arith);
          heartbeat = positive_or-lt _ 15_000_000_000 (omega arith);
          cache = enabled-new _ _ (duration "WORKER_AUTH_CACHE_TTL" (30 * second) (omega arith));
        })
      ]
    ]
