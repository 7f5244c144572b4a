-- ===== src/ControlPlane/Enrollment/Revoked.antt =====
-- RevokeEnrollment of internal/app/control-plane/api/enrollment/service.go against the authentication of
-- internal/app/control-plane/middleware/token_auth.go.
use openseer.Base.{
  ℕ, String, ◌≡◌, refl, sym, ap, ◌∙◌, subst, ◌≢◌, ◌⊎◌, inl, inr, Bool, true, false, not, ◌&&◌,
  Option, none, some, List, [], ◌∷◌, arith, if◌then◌else◌, Bool-cases, Option-cases, All, find,
  find_sound, All-find, string_eq, nat_eq, ◌==◌, str_eq_iff, Result, ok, err, is_ok, Result-cases,
}
use openseer.ControlPlane.AuthCache.{WorkerAuthCache, enabled, get, invalidate_worker}
use openseer.ControlPlane.AuthCache.History.{IsSound}
use openseer.ControlPlane.AuthCache.Revocation.{IsFree, invalidated-IsFree, free_unanswered}
use openseer.ControlPlane.Token.{
  parse_bearer_token, Access, cached, on_cache, token_query, remember, resolve, authenticate_token,
  authenticate_worker_token,
}
use openseer.Store.Workers.{
  is_revoked, AppWorker, has_token, get_worker_by_token_hash, revoke_worker,
}
use openseer.ControlPlane.Enrollment.{
  set_token_query, revoke_query, by_id_query, revoke_found, revoke_enrollment,
}
use openseer.Store.Db.{Database, statement, statement_ok}
use openseer.Store.Errors.{DbError}

-- No row of that id can authenticate.
abbrev pub IsShut : String → List AppWorker → Type 0
IsShut id workers = All (λ w. (w.id == id && not (is_revoked w.status)) ≡ false) workers

revoke_worker-IsShut :
    (now : ℕ) (reason : Option String) (id : String) (workers : List AppWorker)
    → IsShut id (revoke_worker now reason id workers)
unfolding revoke_worker
revoke_worker-IsShut now reason id [] = tt
revoke_worker-IsShut now reason id (w ∷ workers) = (
  elim (Bool-cases (w.id == id)) [ inl e ↦ rw e (ground arith) | inr e ↦ rw e (ground arith) ],
  revoke_worker-IsShut now reason id workers,
)

has_token-open :
    (hash : String) (w : AppWorker) → has_token hash w ≡ true → is_revoked w.status ≡ false
unfolding has_token
has_token-open hash w h = elim (Option-cases w.token_hash) [
  | inl e ↦ let h' = rw (e, has_token) at h in absurd (ground arith)
  | inr (k, e) ↦ let h' = rw (e, has_token) at h in ground arith
]

abbrev pub id_or : String → Result DbError AppWorker → String
id_or d (ok w) = w.id
id_or d (err e) = d

-- A token that is looked up in the table is not one of a revoked worker.
pub by_token-other :
    (hash id : String) (workers : List AppWorker) {w : AppWorker}
    → IsShut id workers
    → get_worker_by_token_hash hash workers ≡ ok w
    → w.id ≢ id
unfolding get_worker_by_token_hash
by_token-other hash id workers {w} shut h same =
    elim (Option-cases (find (has_token hash) workers)) [
      | inl e ↦ absurd (ground arith)
      | inr (x, e) ↦
          let is_shut = All-find _ (has_token hash) workers shut e in
          let is_open = has_token-open hash x (find_sound (has_token hash) workers e) in
          let row : Path (Result DbError AppWorker) (ok x) (ok w) =
            rw (e, get_worker_by_token_hash) at h in
          let at_id : x.id ≡ id = ap (id_or id) row ∙ same in
          absurd (ground (arith, str_eq_iff x.id id))
    ]

-- No entry of the cache, if there is one and it is on, is the worker's.
abbrev pub IsOut : String → Option WorkerAuthCache → Type 0
IsOut id none = Unit
IsOut id (some c) = (enabled c ≡ false) ⊎ IsFree id c

abbrev pub CacheSound : Option WorkerAuthCache → Type 0
CacheSound none = Unit
CacheSound (some c) = IsSound c

pub disabled_unanswered :
    (id : String) (c : WorkerAuthCache)
    → enabled c ≡ false
    → (now : ℕ) (hash : String) → (get now hash c).0 ≢ some id
unfolding get
disabled_unanswered id c e now hash h = let h' = rw e at h in absurd (ground arith)

pub disabled_same :
    (id : String) (c : WorkerAuthCache) → enabled c ≡ false → invalidate_worker id c ≡ c
unfolding invalidate_worker
disabled_same id c e = rw e refl

invalidated-IsOut :
    (id : String) (o : Option WorkerAuthCache)
    → CacheSound o
    → (id == "") ≡ false
    → IsOut id (on_cache (invalidate_worker id) o)
invalidated-IsOut id none h n = tt
invalidated-IsOut id (some c) h n = elim (Bool-cases (enabled c)) [
  | inl e ↦ inr (invalidated-IsFree id c h (ground arith))
  | inr e ↦ inl (rw (disabled_same id c e) e)
]

-- The worker is out: neither the cache nor the table answers a token with it.
abbrev pub IsRevokedIn : String → Access → Type 0
IsRevokedIn id a = IsOut id a.cache × IsShut id a.db.workers

abbrev or_else : String → Option String → String
or_else d none = d
or_else d (some s) = s

pub cached-other :
    (now : ℕ) (hash id : String) (o : Option WorkerAuthCache)
    → IsOut id o
    → (cached now hash o).0 ≢ some id
cached-other now hash id none h = λ e. absurd (ground arith)
cached-other now hash id (some c) (inl e) = disabled_unanswered id c e now hash
cached-other now hash id (some c) (inr e) = free_unanswered id c e now hash

remember-other :
    (now : ℕ) (hash id : String) (r : Result DbError AppWorker) (a : Access)
    → ((w : AppWorker) → r ≡ ok w → w.id ≢ id)
    → (remember now hash r a).0 ≢ some id
remember-other now hash id (ok w) a h e = h w refl (ap (or_else id) e)
remember-other now hash id (err x) a h e = absurd (ground arith)

pub resolve-other :
    (now : ℕ) (hash id : String) (worker : Option String) (a : Access)
    → worker ≢ some id
    → ((w : AppWorker) → get_worker_by_token_hash hash a.db.workers ≡ ok w → w.id ≢ id)
    → (resolve now hash worker a).0 ≢ some id
resolve-other now hash id (some w) a h other = h
resolve-other now hash id none a h other =
    remember-other now hash id (statement (token_query hash) a.db).0
      (record a { db = (statement (token_query hash) a.db).1 })
      (λ w e same.
        let (fs, found, t) = statement_ok (token_query hash) a.db e in other w found same)

pub authenticate_token-other :
    (hash_token : String → String) (now : ℕ) (token : Option String) (id : String) (a : Access)
    → IsRevokedIn id a
    → (authenticate_token hash_token now token a).0 ≢ some id
authenticate_token-other hash_token now none id a h = λ e. absurd (ground arith)
authenticate_token-other hash_token now (some token) id a h =
    let (worker, cache) = cached now (hash_token token) a.cache in
    resolve-other now (hash_token token) id worker (record a { cache = cache })
      (cached-other now (hash_token token) id a.cache h.0)
      (λ w e. by_token-other (hash_token token) id a.db.workers h.1 e)

revoke_statement-IsShut :
    (reason : Option String) (id : String) (s : Database)
    → is_ok (statement (revoke_query reason id) s).0 ≡ true
    → IsShut id (statement (revoke_query reason id) s).1.workers
revoke_statement-IsShut reason id s h =
    elim (Result-cases (statement (revoke_query reason id) s).0) [
      | inl (u, e) ↦
          let (fs, answered, t) = statement_ok (revoke_query reason id) s e in
          subst (λ d. IsShut id d.workers) (sym t)
            (revoke_worker-IsShut s.clock reason id s.workers)
      | inr (x, e) ↦ let h' = rw e at h in absurd (ground arith)
    ]

revoke_found-IsRevokedIn :
    (id reason : String) (a : Access)
    → CacheSound a.cache
    → (id == "") ≡ false
    → is_ok (revoke_found id reason a).0 ≡ true
    → IsRevokedIn id (revoke_found id reason a).1
unfolding revoke_found
revoke_found-IsRevokedIn id reason a c n h =
    let why = if reason == "" then none else some reason in
    let db = (statement (set_token_query none id) a.db).1 in
    (
      invalidated-IsOut id a.cache c n,
      elim (Bool-cases (is_ok (statement (revoke_query why id) db).0)) [
        | inl e ↦ revoke_statement-IsShut why id db e
        | inr e ↦ let h' = rw e at h in absurd (ground arith)
      ],
    )

pub revoke_enrollment-IsRevokedIn :
    (id reason : String) (a : Access)
    → CacheSound a.cache
    → is_ok (revoke_enrollment id reason a).0 ≡ true
    → IsRevokedIn id (revoke_enrollment id reason a).1
unfolding revoke_enrollment
revoke_enrollment-IsRevokedIn id reason a c h =
    let (r, db) = statement (by_id_query id) a.db in
    elim (Bool-cases (id == "")) [
      | inl e ↦ let h' = rw e at h in absurd (ground arith)
      | inr e ↦ elim (Bool-cases (is_ok r)) [
        | inl t ↦
            rw (e, t)
              (revoke_found-IsRevokedIn id reason (record a { db = db }) c e (rw (e, t) at h))
        | inr t ↦ let h' = rw (e, t) at h in absurd (ground arith)
      ]
    ]

-- Once RevokeEnrollment has answered that the worker is revoked, whatever became of its statements
-- before the last, no Authorization header authenticates as that worker, at any time and whatever
-- becomes of the lookup, which begins after the answer. The cache is absent, or it was sound before the revocation.
pub revoked_never_authenticates :
    (hash_token : String → String) (decodes : String → Bool) (id reason : String) (a : Access)
    (now : ℕ) (header : String)
    → CacheSound a.cache
    → is_ok (revoke_enrollment id reason a).0 ≡ true
    → (authenticate_worker_token hash_token decodes now header (revoke_enrollment id reason a).1).0
      ≢ some id
unfolding authenticate_worker_token
revoked_never_authenticates hash_token decodes id reason a now header c h =
    authenticate_token-other hash_token now (parse_bearer_token decodes header) id
      (revoke_enrollment id reason a).1 (revoke_enrollment-IsRevokedIn id reason a c h)
