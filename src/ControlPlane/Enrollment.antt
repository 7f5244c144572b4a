-- ===== src/ControlPlane/Enrollment.antt =====
-- internal/app/control-plane/api/enrollment/service.go: how workers join, renew their token and are
-- revoked. What the random generators give is an argument, none for their failure.
pub mod Issued
pub mod Listing
pub mod Revoked
pub mod Barred
use openseer.Base.{
  ℕ, ◌+◌, ◌*◌, String, Bool, true, not, ◌&&◌, ◌||◌, Option, none, some, ltb, if◌then◌else◌, ◌==◌,
  nat_eq, string_eq, Result, ok, err, is_ok,
}
use openseer.ControlPlane.AuthCache.{WorkerAuthCache, set, invalidate_worker}
use openseer.ControlPlane.Regions.{normalize}
use openseer.ControlPlane.Token.{Access, on_cache}
use openseer.ControlPlane.WorkerService.{
  Code, unauthenticated, not_found, invalid_argument, internal,
}
use openseer.Store.Db.{Db, statement}
use openseer.Store.Errors.{DbError}
use openseer.Store.Workers.{
  inactive, is_revoked, AppWorker, minute, EnrollWorkerParams, enroll_worker, get_worker_by_id,
  set_worker_token, revoke_worker, status_text,
}

pub record EnrollWorkerRequest : Type 0 where
  pub enrollment_token : String
  pub hostname : String
  pub worker_version : String
  pub region : String

pub record EnrollWorkerResponse : Type 0 where
  pub worker_id : String
  pub api_token : String

abbrev pub enroll_query : EnrollWorkerParams → Db AppWorker
enroll_query p s =
    let (r, workers) = enroll_worker s.clock p s.workers in (r, record s { workers = workers })

abbrev pub set_token_query : Option String → String → Db (Unit {0})
set_token_query hash id s = (ok tt, record s { workers = set_worker_token hash id s.workers })

abbrev pub revoke_query : Option String → String → Db (Unit {0})
revoke_query reason id s = (ok tt, record s { workers = revoke_worker s.clock reason id s.workers })

abbrev pub by_id_query : String → Db AppWorker
by_id_query id s = (get_worker_by_id id s.workers, s)

-- A new token takes the place of all that the cache holds of the worker.
abbrev pub cache_token : ℕ → String → String → WorkerAuthCache → WorkerAuthCache
cache_token now hash id c = set now hash id (invalidate_worker id c)

-- SetWorkerToken with the hash of a new token, and the cache brought up to date.
unfoldable pub issue_token : ℕ → String → String → Access → Result Code (Unit {0}) × Access
issue_token now hash id a =
    let (r, db) = statement (set_token_query (some hash) id) a.db in
    if is_ok r
    then (ok tt, record { cache = on_cache (cache_token now hash id) a.cache; db = db })
    else (err internal, record a { db = db })

abbrev pub enrolled_with :
    String → String → Result Code (Unit {0}) → Result Code EnrollWorkerResponse
enrolled_with id token (ok u) = ok (record { worker_id = id; api_token = token })
enrolled_with id token (err e) = err e

-- The part of EnrollWorker behind its checks, for a new id, token and hash.
unfoldable pub admit :
    (String → String)
    → EnrollWorkerRequest
    → Option String
    → Option (String × String)
    → Access
    → Result Code EnrollWorkerResponse × Access
unfolding issue_token
admit clean msg none token a = (err internal, a)
admit clean msg (some id) none a = (err internal, a)
admit clean msg (some id) (some (token, hash)) a =
    let p : EnrollWorkerParams = record {
      id = id;
      hostname = some msg.hostname;
      region = normalize clean msg.region;
      version = msg.worker_version;
    } in
    let (r, db) = statement (enroll_query p) a.db in
    let (issued, a') = issue_token db.clock hash id (record a { db = db }) in
    if is_ok r then (enrolled_with id token issued, a') else (err internal, record a { db = db })

unfoldable pub enroll_worker_call :
    (String → String)
    → String
    → EnrollWorkerRequest
    → Option String
    → Option (String × String)
    → Access
    → Result Code EnrollWorkerResponse × Access
unfolding admit
enroll_worker_call clean cluster_token msg id token a =
    if msg.enrollment_token == ""
    then (err unauthenticated, a)
    else if msg.hostname == "" || msg.worker_version == ""
    then (err invalid_argument, a)
    else if msg.enrollment_token == cluster_token
    then admit clean msg id token a
    else (err unauthenticated, a)

-- Renewed with a token, or refused because the worker is revoked.
abbrev pub renewed_with : String → Result Code (Unit {0}) → Result Code (Option String)
renewed_with token (ok u) = ok (some token)
renewed_with token (err e) = err e

abbrev pub renew_for :
    String
    → Option (String × String)
    → Result DbError AppWorker
    → Access
    → Result Code (Option String) × Access
renew_for id token (err e) a = (err not_found, a)
renew_for id none (ok w) a = (if is_revoked w.status then ok none else err internal, a)
renew_for id (some (token, hash)) (ok w) a =
    let (issued, a') = issue_token a.db.clock hash id a in
    if is_revoked w.status then (ok none, a) else (renewed_with token issued, a')

unfoldable pub renew_enrollment :
    String → Option (String × String) → Access → Result Code (Option String) × Access
renew_enrollment id token a =
    let (r, db) = statement (by_id_query id) a.db in
    if id == "" then (err invalid_argument, a) else renew_for id token r (record a { db = db })

-- After the worker was found: the token is cleared, whatever comes of it, then the cache, then the
-- status is set.
unfoldable pub revoke_found : String → String → Access → Result Code Bool × Access
revoke_found id reason a =
    let (cleared, db) = statement (set_token_query none id) a.db in
    let why = if reason == "" then none else some reason in
    let (r, db') = statement (revoke_query why id) db in
    (
      if is_ok r then ok true else err internal,
      record { cache = on_cache (invalidate_worker id) a.cache; db = db' },
    )

unfoldable pub revoke_enrollment : String → String → Access → Result Code Bool × Access
unfolding revoke_found
revoke_enrollment id reason a =
    let (r, db) = statement (by_id_query id) a.db in
    let a' = record a { db = db } in
    if id == ""
    then (err invalid_argument, a)
    else if is_ok r
    then revoke_found id reason a'
    else (err not_found, a')

-- The status that GetWorkerStatus shows: inactive after five minutes of silence.
abbrev pub shown_status : ℕ → AppWorker → String
shown_status now w =
    if not (is_revoked w.status) && ltb (w.last_seen_at + 5 * minute) now
    then "inactive"
    else status_text w.status

abbrev pub shown_hostname : AppWorker → String
shown_hostname w = elim w.hostname [ none ↦ w.id | some h ↦ h ]

pub record WorkerInfo : Type 0 where
  pub worker_id : String
  pub status : String
  pub enrolled_at : ℕ
  pub last_seen_at : ℕ
  pub region : String
  pub hostname : String
  pub worker_version : String

abbrev pub worker_info : String → AppWorker → WorkerInfo
worker_info status w = record {
  worker_id = w.id;
  status = status;
  enrolled_at = w.enrolled_at;
  last_seen_at = w.last_seen_at;
  region = w.region;
  hostname = shown_hostname w;
  worker_version = w.version;
}

abbrev pub status_outcome : ℕ → Result DbError AppWorker → Result Code WorkerInfo
status_outcome now (ok w) = ok (worker_info (shown_status now w) w)
status_outcome now (err e) = err not_found

unfoldable pub get_worker_status : String → Access → Result Code WorkerInfo × Access
get_worker_status id a =
    let (r, db) = statement (by_id_query id) a.db in
    if id == ""
    then (err invalid_argument, a)
    else (status_outcome db.clock r, record a { db = db })
