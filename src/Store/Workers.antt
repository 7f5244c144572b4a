-- ===== src/Store/Workers.antt =====
-- internal/app/control-plane/store/sqlc/workers.sql.go: the rows of app.workers and the statements
-- on them. A statement takes the database's NOW() where it reads it.
pub mod Status
pub mod Capabilities
use openseer.Base.{
  ℕ, ◌+◌, ◌*◌, String, Bool, true, false, not, ◌&&◌, Option, none, some, List, [], ◌∷◌, ◌++◌, map,
  ltb, leb, if◌then◌else◌, take, filter, any, count_if, find, ◌==◌, nat_eq, string_eq, Result, ok,
  err,
}
use openseer.Base.Sort.{sort}
use openseer.Base.Int.{ℤ, pos, negsuc}
use openseer.Store.Errors.{DbError, no_rows, constraint}

pub data WorkerStatus : Type 0 where
  enrolled active inactive revoked : WorkerStatus

abbrev pub is_revoked : WorkerStatus → Bool
is_revoked revoked = true
is_revoked _ = false

abbrev pub is_active : WorkerStatus → Bool
is_active active = true
is_active _ = false

-- `status IN ('active', 'enrolled')`
abbrev pub is_recent : WorkerStatus → Bool
is_recent active = true
is_recent enrolled = true
is_recent _ = false

pub record AppWorker : Type 0 where
  pub id : String
  pub region : String
  pub version : String
  pub last_seen_at : ℕ
  pub registered_at : ℕ
  pub status : WorkerStatus
  pub hostname : Option String
  pub enrolled_at : ℕ
  pub revoked_at : Option ℕ
  pub revoked_reason : Option String
  pub token_hash : Option String

-- Nanoseconds in a minute.
abbrev pub minute : ℕ
minute = 60_000_000_000

abbrev pub has_id : String → AppWorker → Bool
has_id id w = w.id == id

abbrev pub set_where :
    (AppWorker → Bool) → (AppWorker → AppWorker) → List AppWorker → List AppWorker
set_where p f = map (λ w. if p w then f w else w)

pub record EnrollWorkerParams : Type 0 where
  pub id : String
  pub hostname : Option String
  pub region : String
  pub version : String

-- The primary key refuses a second row of one id.
unfoldable pub enroll_worker :
    ℕ → EnrollWorkerParams → List AppWorker → Result DbError AppWorker × List AppWorker
enroll_worker now p workers =
    if any (has_id p.id) workers then (err constraint, workers) else (ok w, workers ++ w ∷ [])
  where
    w : AppWorker
    w = record {
      id = p.id;
      region = p.region;
      version = p.version;
      last_seen_at = now;
      registered_at = now;
      status = enrolled;
      hostname = p.hostname;
      enrolled_at = now;
      revoked_at = none;
      revoked_reason = none;
      token_hash = none;
    }

unfoldable pub get_worker_by_id : String → List AppWorker → Result DbError AppWorker
get_worker_by_id id workers = elim (find (has_id id) workers) [ none ↦ err no_rows | some w ↦ ok w ]

-- `token_hash = $1 AND status IN ('enrolled', 'active', 'inactive')`
unfoldable pub has_token : String → AppWorker → Bool
has_token hash w = elim w.token_hash [
  | none ↦ false
  | some h ↦ h == hash && not (is_revoked w.status)
]

unfoldable pub get_worker_by_token_hash : String → List AppWorker → Result DbError AppWorker
unfolding has_token
get_worker_by_token_hash hash workers = elim (find (has_token hash) workers) [
  | none ↦ err no_rows
  | some w ↦ ok w
]

unfoldable pub set_worker_token : Option String → String → List AppWorker → List AppWorker
set_worker_token hash id = set_where (has_id id) (λ w. record w { token_hash = hash })

unfoldable pub revoke_worker : ℕ → Option String → String → List AppWorker → List AppWorker
revoke_worker now reason id =
    set_where (has_id id)
      (λ w. record w { status = revoked; revoked_at = some now; revoked_reason = reason })

-- The UPDATE has no condition on the status.
unfoldable pub update_worker_heartbeat : ℕ → String → List AppWorker → List AppWorker
update_worker_heartbeat now id =
    set_where (has_id id) (λ w. record w { last_seen_at = now; status = active })

-- `last_seen_at < NOW() - INTERVAL '2 minutes'`
unfoldable pub is_stale : ℕ → AppWorker → Bool
is_stale now w = is_recent w.status && ltb (w.last_seen_at + 2 * minute) now

unfoldable pub mark_worker_inactive : ℕ → List AppWorker → List AppWorker
mark_worker_inactive now = set_where (is_stale now) (λ w. record w { status = inactive })

-- `status = 'active' AND last_seen_at >= NOW() - INTERVAL '1 minute'`
unfoldable pub is_healthy : ℕ → AppWorker → Bool
is_healthy now w = is_active w.status && leb now (w.last_seen_at + minute)

pub record RegionHealth : Type 0 where
  pub region : String
  pub healthy_workers : ℕ

unfoldable pub regions_of : List AppWorker → List String
regions_of [] = []
regions_of (w ∷ workers) =
    let rest = regions_of workers in if any (λ r. r == w.region) rest then rest else w.region ∷ rest

-- GROUP BY region; the ORDER BY is left open, since the callers build a map of it or pass it on.
unfoldable pub list_region_health : ℕ → List AppWorker → List RegionHealth
unfolding regions_of is_healthy
list_region_health now workers =
    map
      (λ r. record {
        region = r;
        healthy_workers = count_if (λ w. w.region == r && is_healthy now w) workers;
      })
      (regions_of workers)

abbrev pub status_text : WorkerStatus → String
status_text enrolled = "enrolled"
status_text active = "active"
status_text inactive = "inactive"
status_text revoked = "revoked"

-- `($1::TEXT IS NULL OR region = $1) AND ($2::TEXT IS NULL OR status = $2)`, for parameters that
-- are Go strings, so never NULL.
unfoldable pub listed : String → String → AppWorker → Bool
listed region status w = w.region == region && status_text w.status == status

-- ORDER BY enrolled_at DESC, from row 0, as the one caller asks. A negative LIMIT is an error.
unfoldable pub list_workers : String → String → ℤ → List AppWorker → Result DbError (List AppWorker)
unfolding listed
list_workers region status (negsuc n) workers = err constraint
list_workers region status (pos n) workers =
    ok (
      take n
        (sort (λ v w. ltb w.enrolled_at v.enrolled_at) (filter (listed region status) workers)))

unfoldable pub count_workers : String → String → List AppWorker → ℕ
unfolding listed
count_workers region status = count_if (listed region status)
