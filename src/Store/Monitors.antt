-- ===== src/Store/Monitors.antt =====
-- internal/app/control-plane/store/sqlc/monitors.sql.go: the rows of app.monitors and the
-- statements on them that the services and the scheduler make.
pub mod Queries
pub mod Deleted
use openseer.Base.{
  ℕ, String, Bool, true, false, not, ◌&&◌, Option, none, some, List, [], ◌∷◌, ◌++◌, map, ltb, leb,
  if◌then◌else◌, is_none, filter, any, find, ◌==◌, nat_eq, string_eq, Result, ok, err,
}
use openseer.Base.Sort.{sort}
use openseer.Base.Int.{ℤ}
use openseer.Store.Errors.{DbError, no_rows, constraint}

pub record AppMonitor : Type 0 where
  pub id : String
  pub url : String
  pub interval_ms : ℤ
  pub timeout_ms : ℤ
  pub regions : List String
  pub jitter_seed : ℤ
  pub rate_limit_key : Option String
  pub method : String
  pub headers : Option String
  pub assertions : Option String
  pub enabled : Option Bool
  pub last_scheduled_at : Option ℕ
  pub next_due_at : Option ℕ
  pub user_id : Option String
  pub created_at : ℕ
  pub updated_at : ℕ
  pub name : String
  pub deleted_at : Option ℕ

-- A NULL counts as false, in SQL's WHERE and in `Valid && Bool`.
abbrev pub is_true : Option Bool → Bool
is_true none = false
is_true (some b) = b

abbrev pub owned_by : String → Option String → Bool
owned_by u none = false
owned_by u (some v) = v == u

-- `id = $1 AND user_id = $2 AND deleted_at IS NULL`
unfoldable pub is_users : String → String → AppMonitor → Bool
is_users id user m = m.id == id && owned_by user m.user_id && is_none m.deleted_at

unfoldable pub get_monitor_by_user : String → String → List AppMonitor → Result DbError AppMonitor
unfolding is_users
get_monitor_by_user id user monitors = elim (find (is_users id user) monitors) [
  | none ↦ err no_rows
  | some m ↦ ok m
]

-- ORDER BY created_at DESC
unfoldable pub list_monitors_by_user : String → List AppMonitor → List AppMonitor
list_monitors_by_user user monitors =
    sort (λ m n. ltb n.created_at m.created_at)
      (filter (λ m. owned_by user m.user_id && is_none m.deleted_at) monitors)

-- `enabled = true AND deleted_at IS NULL AND (next_due_at IS NULL OR next_due_at <= $1)`
abbrev pub is_due_by : ℕ → Option ℕ → Bool
is_due_by t none = true
is_due_by t (some due) = leb due t

unfoldable pub is_due : ℕ → AppMonitor → Bool
is_due t m = is_true m.enabled && is_none m.deleted_at && is_due_by t m.next_due_at

-- ORDER BY next_due_at NULLS FIRST
abbrev pub due_before : Option ℕ → Option ℕ → Bool
due_before none none = false
due_before none (some b) = true
due_before (some a) none = false
due_before (some a) (some b) = ltb a b

-- `locked` stands for the rows that other transactions hold (FOR UPDATE SKIP LOCKED).
unfoldable pub list_due_monitors : ℕ → (String → Bool) → List AppMonitor → List AppMonitor
unfolding is_due
list_due_monitors t locked monitors =
    sort (λ m n. due_before m.next_due_at n.next_due_at)
      (filter (λ m. is_due t m && not (locked m.id)) monitors)

abbrev pub set_where :
    (AppMonitor → Bool) → (AppMonitor → AppMonitor) → List AppMonitor → List AppMonitor
set_where p f = map (λ m. if p m then f m else m)

-- An UPDATE with RETURNING, read by QueryRow.
unfoldable pub update_one :
    (AppMonitor → Bool)
    → (AppMonitor → AppMonitor)
    → List AppMonitor
    → Result DbError AppMonitor × List AppMonitor
update_one p f monitors = elim (find p monitors) [
  | none ↦ (err no_rows, monitors)
  | some m ↦ (ok (f m), set_where p f monitors)
]

unfoldable pub update_monitor_scheduling_time :
    ℕ → String → ℕ → ℕ → List AppMonitor → Result DbError AppMonitor × List AppMonitor
unfolding update_one
update_monitor_scheduling_time now id last_scheduled next_due =
    update_one (λ m. m.id == id)
      (λ m. record m {
        last_scheduled_at = some last_scheduled;
        next_due_at = some next_due;
        updated_at = now;
      })

pub record MonitorParams : Type 0 where
  pub id : String
  pub name : String
  pub url : String
  pub interval_ms : ℤ
  pub timeout_ms : ℤ
  pub regions : List String
  pub jitter_seed : ℤ
  pub rate_limit_key : Option String
  pub method : String
  pub headers : Option String
  pub assertions : Option String
  pub enabled : Option Bool
  pub user_id : String

-- The primary key refuses a second row of one id.
unfoldable pub create_monitor :
    ℕ → MonitorParams → List AppMonitor → Result DbError AppMonitor × List AppMonitor
create_monitor now p monitors =
    if any (λ m. m.id == p.id) monitors
    then (err constraint, monitors)
    else (ok n, monitors ++ n ∷ [])
  where
    n : AppMonitor
    n = record {
      id = p.id;
      url = p.url;
      interval_ms = p.interval_ms;
      timeout_ms = p.timeout_ms;
      regions = p.regions;
      jitter_seed = p.jitter_seed;
      rate_limit_key = p.rate_limit_key;
      method = p.method;
      headers = p.headers;
      assertions = p.assertions;
      enabled = p.enabled;
      last_scheduled_at = none;
      next_due_at = none;
      user_id = some p.user_id;
      created_at = now;
      updated_at = now;
      name = p.name;
      deleted_at = none;
    }

unfoldable pub update_monitor_by_user :
    ℕ → MonitorParams → List AppMonitor → Result DbError AppMonitor × List AppMonitor
unfolding update_one
update_monitor_by_user now p =
    update_one (λ m. m.id == p.id && owned_by p.user_id m.user_id)
      (λ m. record m {
        name = p.name;
        url = p.url;
        interval_ms = p.interval_ms;
        timeout_ms = p.timeout_ms;
        regions = p.regions;
        jitter_seed = p.jitter_seed;
        rate_limit_key = p.rate_limit_key;
        method = p.method;
        headers = p.headers;
        assertions = p.assertions;
        enabled = p.enabled;
        updated_at = now;
      })

unfoldable pub delete_monitor_by_user : ℕ → String → String → List AppMonitor → List AppMonitor
unfolding is_users
delete_monitor_by_user now id user =
    set_where (is_users id user) (λ m. record m { deleted_at = some now })
