-- ===== src/Tests/Services.antt =====
-- Concrete runs of the control plane's services (internal/app/control-plane and internal/pkg/regions).
use openseer.Base.{
  ℕ, ◌-◌, String, ◌≡◌, refl, ◌≢◌, true, false, not, ◌||◌, none, some, List, [], ◌∷◌, arith,
  if◌then◌else◌, any, find, string_eq, nat_eq, ◌==◌, str_eq_iff, is_ok,
}
use openseer.Base.Int.{ℤ, pos}
use openseer.ControlPlane.AuthCache.{
  WorkerAuthCache, new_worker_auth_cache, enabled, drop_hash, remove_token, get, prune_expired,
  oldest_from, evict_oldest, shrink, evict, unlink, put, set,
}
use openseer.ControlPlane.AuthCache.History.{
  CacheOp, get_op, set_op, apply_op, run, IsSound, run-IsSound, new-IsSound,
}
use openseer.ControlPlane.Enrollment.{issue_token, revoke_found, revoke_enrollment}
use openseer.ControlPlane.Enrollment.Revoked.{revoked_never_authenticates}
use openseer.ControlPlane.JobCleaner.{
  new_job_cleaner, drained, out_of_fuel, clean_loop, run_cleanup,
}
use openseer.ControlPlane.JobCleaner.Drain.{cleanup_ends, cleanup_drains}
use openseer.ControlPlane.Regions.{normalize, normalize_list}
use openseer.ControlPlane.Regions.Normal.{NoRepeats, normalize_list_sound}
use openseer.ControlPlane.Scheduler.{schedule_iteration}
use openseer.ControlPlane.Scheduler.Coverage.{IsSpread, iteration-IsSpread}
use openseer.ControlPlane.Scheduler.Timing.{apply_jitter}
use openseer.ControlPlane.Token.{
  validate_token_format, parse_bearer_token, Access, authenticate_worker_token,
}
use openseer.ControlPlane.WorkerService.{State, touch_worker_heartbeat, renew_lease_call, get_jobs}
use openseer.ControlPlane.WorkerService.Polling.{AnswersWith, get_jobs_leased}
use openseer.Store.Db.{served, refused, Database, through, statement}
use openseer.Store.Jobs.{update_one, renew_lease, is_old, delete_done_jobs_before}
use openseer.Store.Jobs.Spacing.{too_near}
use openseer.Store.Monitors.{AppMonitor}
use openseer.Store.Workers.{
  active, revoked, AppWorker, has_id, get_worker_by_id, has_token, set_worker_token, revoke_worker,
  update_worker_heartbeat,
}
use openseer.Tests.Jobs.{three_jobs, three_jobs-Distinct, now, nobody, owner}
use openseer.Base.Dict.{lookup, insert, delete}
use openseer.Base.Sort.{insert_sorted, sort}
use openseer.ControlPlane.WorkerService.Renewal.{is_held_until, says_renewed, renewed_until}
use openseer.Store.Workers.Status.{is_revoked_in}
use openseer.ControlPlane.Enrollment.Issued.{KnowsOnly, issued_token_authenticates}
use openseer.Store.Sessions.{User, SessionRow}
use openseer.ControlPlane.Heartbeats.{
  new_heartbeat_tracker, update_every, should_update, invalidate,
}
use openseer.ControlPlane.Heartbeats.Spacing.{
  TrackerCall, ask, forget, accepted, Gaps, accepted_spaced,
}
use openseer.ControlPlane.AuthCache.Index.{holds}

abbrev pub a_worker : AppWorker
a_worker = record {
  id = "w1";
  region = "eu";
  version = "1.0";
  last_seen_at = 1_000_000_000;
  registered_at = 5;
  status = active;
  hostname = some "host";
  enrolled_at = 5;
  revoked_at = none;
  revoked_reason = none;
  token_hash = some "h1";
}

abbrev pub a_monitor : AppMonitor
a_monitor = record {
  id = "m1";
  url = "http://x";
  interval_ms = pos 60_000;
  timeout_ms = pos 5000;
  regions = "eu" ∷ "us" ∷ [];
  jitter_seed = pos 7;
  rate_limit_key = none;
  method = "GET";
  headers = none;
  assertions = none;
  enabled = some true;
  last_scheduled_at = none;
  next_due_at = none;
  user_id = some "u1";
  created_at = 5;
  updated_at = 5;
  name = "m";
  deleted_at = none;
}

-- The second statement of a request is refused.
abbrev pub a_user : User
a_user = record {
  id = "u1";
  name = "Ada";
  email = "ada@example.org";
  email_verified = true;
  image = none;
  created_at = 1;
  updated_at = 1;
}

abbrev pub a_session : SessionRow
a_session = record {
  id = "s1";
  expires_at = 1_000_000_000_000;
  token = "t1";
  created_at = 1;
  updated_at = 1;
  ip_address = none;
  user_agent = none;
  user_id = "u1";
}

abbrev pub a_database : Database
a_database = record {
  jobs = three_jobs;
  workers = a_worker ∷ [];
  monitors = a_monitor ∷ [];
  results = [];
  hourly = [];
  daily = [];
  users = a_user ∷ [];
  sessions = a_session ∷ [];
  clock = now;
  faults = served ∷ served ∷ served ∷ refused ∷ [];
}

abbrev pub a_state : State
a_state = record {
  service = record {
    lease_duration = 45_000_000_000;
    heartbeats = record { interval = pos 15_000_000_000; last_seen = [] };
  };
  db = a_database;
}

get_jobs_leased_example :
    AnswersWith "w1"
      (get_jobs nobody (pos 2) (some "w1") a_state).0
      (get_jobs nobody (pos 2) (some "w1") a_state).1.db
get_jobs_leased_example = get_jobs_leased nobody (pos 2) "w1" a_state three_jobs-Distinct

abbrev an_hour_ttl : ℤ
an_hour_ttl = pos 3_600_000_000_000

abbrev some_calls : List CacheOp
some_calls = set_op 5 "h1" "w1" ∷ get_op 6 "h1" ∷ set_op 7 "h2" "w2" ∷ set_op 8 "h3" "w1" ∷ []

abbrev pub a_cache : WorkerAuthCache
a_cache = run some_calls (new_worker_auth_cache an_hour_ttl (pos 2))

run-IsSound_example : IsSound (run some_calls (new_worker_auth_cache an_hour_ttl (pos 2)))
run-IsSound_example =
    run-IsSound some_calls (new_worker_auth_cache an_hour_ttl (pos 2))
      (new-IsSound an_hour_ttl (pos 2))

pub a_cache-IsSound : IsSound a_cache
a_cache-IsSound =
    run-IsSound some_calls (new_worker_auth_cache an_hour_ttl (pos 2))
      (new-IsSound an_hour_ttl (pos 2))

a_cache_enabled : (not (enabled a_cache) || owner == "") ≡ false
unfolding run apply_op new_worker_auth_cache set get put evict unlink prune_expired shrink
    evict_oldest oldest_from remove_token drop_hash lookup insert delete
a_cache_enabled = refl

abbrev pub an_access : Access
an_access = record { cache = some a_cache; db = a_database }

pub is_revoked_ok : is_ok (revoke_enrollment "w1" "stolen" an_access).0 ≡ true
unfolding revoke_enrollment revoke_found statement through get_worker_by_id revoke_worker
    set_worker_token
is_revoked_ok = refl

revoked_never_authenticates_example :
    (authenticate_worker_token
      (λ t. "h1")
      (λ t. true)
      now
      "Bearer ostk_00"
      (revoke_enrollment "w1" "stolen" an_access).1).0
    ≢ some "w1"
revoked_never_authenticates_example =
    revoked_never_authenticates (λ t. "h1") (λ t. true) "w1" "stolen" an_access now "Bearer ostk_00"
      a_cache-IsSound is_revoked_ok

abbrev tracker_calls : List TrackerCall
tracker_calls =
    ask 5 "w1"
    ∷ ask 8 "w1"
    ∷ ask 15 "w1"
    ∷ forget "w2"
    ∷ ask 20 "w1"
    ∷ forget "w1"
    ∷ ask 21 "w1"
    ∷ []

accepted_spaced_example : Gaps 10 (accepted "w1" tracker_calls (new_heartbeat_tracker (pos 10)))
unfolding new_heartbeat_tracker
accepted_spaced_example = accepted_spaced 9 "w1" tracker_calls (new_heartbeat_tracker (pos 10)) refl

-- An Invalidate lets the next heartbeat through at once.
accepted_run :
    accepted "w1" tracker_calls (new_heartbeat_tracker (pos 10))
    ≡ some 5 ∷ some 15 ∷ none ∷ some 21 ∷ []
unfolding accepted new_heartbeat_tracker should_update update_every invalidate lookup insert delete
accepted_run = refl

cleanup_ends_example :
    (run_cleanup (new_job_cleaner (pos 0) (pos 1) (pos 1)) (some true) a_database).0
    ≢ some out_of_fuel
cleanup_ends_example = cleanup_ends (pos 0) (pos 1) (pos 1) (some true) a_database

is_drained_run :
    (run_cleanup (new_job_cleaner (pos 0) (pos 1) (pos 1)) (some true) a_database).0 ≡ some drained
unfolding run_cleanup new_job_cleaner clean_loop statement through delete_done_jobs_before sort
    insert_sorted
is_drained_run = refl

cleanup_drains_example :
    any
      (is_old (now - 1))
      (run_cleanup (new_job_cleaner (pos 0) (pos 1) (pos 1)) (some true) a_database).1.jobs
    ≡ false
cleanup_drains_example =
    cleanup_drains (pos 0) (pos 1) (pos 1) (some true) a_database is_drained_run

abbrev pub a_run_id : String → String → ℕ → String
a_run_id id region at = if region == "eu" then "new-eu" else "new-us"

three_jobs-IsSpread : IsSpread three_jobs
unfolding too_near
three_jobs-IsSpread = (three_jobs-Distinct, (refl, (refl, (refl, tt))))

iteration-IsSpread_example :
    IsSpread
      (schedule_iteration a_run_id
        (λ id seed. 6)
        now
        nobody
        (record { jobs = three_jobs; monitors = a_monitor ∷ [] })).jobs
iteration-IsSpread_example =
    iteration-IsSpread a_run_id (λ id seed. 6) now nobody
      (record { jobs = three_jobs; monitors = a_monitor ∷ [] }) three_jobs-IsSpread

a_jitter : apply_jitter 123 (pos 60_000_000_000) ≡ pos 59_999_999_877
unfolding apply_jitter
a_jitter = refl

abbrev lowered : String → String
lowered s = if s == " EU" then "eu" else s

lowered_twice : (s : String) → lowered (lowered s) ≡ lowered s
lowered_twice s = ground (arith, str_eq_iff s " EU")

normalize_list_sound_example :
    NoRepeats (normalize_list lowered (" EU" ∷ "eu" ∷ "" ∷ []))
    × ((n : String)
        → any (λ s. s == n) (normalize_list lowered (" EU" ∷ "eu" ∷ "" ∷ []))
          ≡ any (λ r. normalize lowered r == n) (" EU" ∷ "eu" ∷ "" ∷ []))
normalize_list_sound_example = normalize_list_sound lowered (" EU" ∷ "eu" ∷ "" ∷ [])

is_renewed : says_renewed (renew_lease_call "r2" (some "w1") a_state).0 ≡ true
unfolding renew_lease_call touch_worker_heartbeat statement through update_worker_heartbeat
    should_update update_every lookup insert renew_lease update_one
is_renewed = refl

renewed_until_example :
    any
      (is_held_until "r2" "w1" 47_000_000_000)
      (renew_lease_call "r2" (some "w1") a_state).1.db.jobs
    ≡ true
renewed_until_example = renewed_until "r2" "w1" a_state is_renewed

abbrev revoked_worker : AppWorker
revoked_worker = record a_worker { status = revoked }

w1_revoked : is_revoked_in "w1" (revoked_worker ∷ []) ≡ true
unfolding is_revoked_in
w1_revoked = refl

abbrev a_token : String
a_token = "ostk_0123456789abcdef0123456789abcdef0123456789abcdef0123456789abcdef"

abbrev a_header : String
a_header = "Bearer ostk_0123456789abcdef0123456789abcdef0123456789abcdef0123456789abcdef"

a_header_parsed : parse_bearer_token (λ t. true) a_header ≡ some a_token
unfolding parse_bearer_token validate_token_format
a_header_parsed = refl

abbrev quiet_database : Database
quiet_database = record a_database { faults = [] }

w1_found : find (has_id "w1") quiet_database.workers ≡ some a_worker
w1_found = refl

h9_fresh : any (has_token "h9") quiet_database.workers ≡ false
unfolding has_token
h9_fresh = refl

-- The cache knows the workers of its own calls, none of them under the new hash.
abbrev quiet_access : Access
quiet_access = record { cache = some a_cache; db = quiet_database }

h9_uncached : KnowsOnly "w1" "h9" (some a_cache)
unfolding holds run apply_op new_worker_auth_cache set get put evict unlink prune_expired shrink
    evict_oldest oldest_from remove_token drop_hash lookup insert delete
h9_uncached v ne = refl

abbrev an_old_token : String
an_old_token = "ostk_fedcba9876543210fedcba9876543210fedcba9876543210fedcba9876543210"

abbrev an_old_header : String
an_old_header = "Bearer ostk_fedcba9876543210fedcba9876543210fedcba9876543210fedcba9876543210"

old_header_parsed : parse_bearer_token (λ t. true) an_old_header ≡ some an_old_token
unfolding parse_bearer_token validate_token_format
old_header_parsed = refl

-- The cache has the worker under the hash of its old token.
abbrev a_hash : String → String
a_hash t = if t == an_old_token then "h3" else "h9"

issued_token_authenticates_example :
    let a' = (issue_token now "h9" "w1" quiet_access).1 in
    ((authenticate_worker_token a_hash (λ t. true) now a_header a').0 ≡ some "w1")
    × ((authenticate_worker_token a_hash (λ t. true) now an_old_header a').0 ≢ some "w1")
issued_token_authenticates_example =
    issued_token_authenticates a_hash (λ t. true) now now "w1" a_token a_header an_old_token
      an_old_header quiet_access refl w1_found refl h9_fresh h9_uncached a_cache-IsSound refl
      a_header_parsed old_header_parsed refl

-- The old token authenticated the worker through the cache.
old_token_held :
    (authenticate_worker_token a_hash (λ t. true) now an_old_header quiet_access).0 ≡ some "w1"
unfolding authenticate_worker_token parse_bearer_token validate_token_format run apply_op
    new_worker_auth_cache set get put evict unlink prune_expired shrink evict_oldest oldest_from
    remove_token drop_hash lookup insert delete
old_token_held = refl
