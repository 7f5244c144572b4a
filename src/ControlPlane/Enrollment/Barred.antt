-- ===== src/ControlPlane/Enrollment/Barred.antt =====
-- RevokeEnrollment (internal/app/control-plane/api/enrollment/service.go) against all requests of workers after
-- it, through internal/app/control-plane/middleware/token_auth.go and api/worker/service.go.
use openseer.Base.{
  ℕ, String, ◌≡◌, refl, sym, ap, ◌∙◌, subst, ◌≢◌, inl, inr, Bool, true, Option, none, some, List,
  [], ◌∷◌, arith, Bool-cases, string_eq, nat_eq, ◌==◌, str_eq_iff, Result, ok, err, is_ok,
}
use openseer.ControlPlane.AuthCache.{WorkerAuthCache, get, set}
use openseer.ControlPlane.AuthCache.Revocation.{get-IsFree, set-IsFree}
use openseer.ControlPlane.Enrollment.{revoke_enrollment}
use openseer.ControlPlane.Enrollment.Revoked.{
  IsShut, by_token-other, IsOut, CacheSound, IsRevokedIn, authenticate_token-other,
  revoke_enrollment-IsRevokedIn,
}
use openseer.ControlPlane.Token.{
  parse_bearer_token, Access, cached, on_cache, token_query, remember, resolve, authenticate_token,
  authenticate_worker_token, authorized, token_auth_handler_with_cache,
}
use openseer.ControlPlane.Token.Requests.{
  TookNothing, TookNothing-self, made-TookNothing, worker_handler, authenticate-keeps,
  authorized-keeps,
}
use openseer.ControlPlane.WorkerService.{WorkerService}
use openseer.ControlPlane.WorkerService.Calls.{WorkerCall, MadeBy, IsKept}
use openseer.Store.Db.{Fault, Database, statement, statement_ok}
use openseer.Store.Errors.{DbError}
use openseer.Store.Jobs.{AppJob}
use openseer.Store.Workers.{AppWorker, update_worker_heartbeat}

-- A request at an instant, with what becomes of its statements.
pub record WorkerRequest : Type 0 where
  pub header : String
  pub call : WorkerCall
  pub at : ℕ
  pub faults : List Fault

abbrev pub arrive : WorkerRequest → Access → Access
arrive r a = record a { db = record a.db { clock = r.at; faults = r.faults } }

module _ (hash_token : String → String) (decodes : String → Bool) where
  -- What the requests leave, one after the other.
  unfoldable pub serve_all : List WorkerRequest → WorkerService × Access → WorkerService × Access
  unfolding token_auth_handler_with_cache
  serve_all [] s = s
  serve_all (r ∷ requests) (service, a) =
      let (answer, s) =
        token_auth_handler_with_cache hash_token decodes (worker_handler r.call) r.at r.header
          (service, arrive r a) in
      serve_all requests s

heartbeat-IsShut :
    (now : ℕ) (id w : String) (workers : List AppWorker)
    → id ≢ w
    → IsShut id workers
    → IsShut id (update_worker_heartbeat now w workers)
unfolding update_worker_heartbeat
heartbeat-IsShut now id w [] n h = tt
heartbeat-IsShut now id w (x ∷ workers) n h = (
  elim (Bool-cases (x.id == w)) [
    | inl e ↦ rw e (ground (arith, str_eq_iff x.id w, str_eq_iff x.id id))
    | inr e ↦ rw e h.0
  ],
  heartbeat-IsShut now id w workers n h.1,
)

-- The worker has no job more than in the old table, and no row that can authenticate.
abbrev pub IsBarred : String → List AppJob → Database → Type 0
IsBarred id old d = TookNothing id old d.jobs × IsShut id d.workers

IsBarred-IsKept :
    (id : String) (old : List AppJob) (w : String) → id ≢ w → IsKept (MadeBy w) w (IsBarred id old)
IsBarred-IsKept id old w n = record {
  faulty = λ d fs h. h;
  acted = λ op made d h. (made-TookNothing id old w n d.clock op made d.jobs h.0, h.1);
  beaten = λ d h. (h.0, heartbeat-IsShut d.clock id w d.workers n h.1);
  recorded = λ d results h. h;
}

get-IsOut :
    (now : ℕ) (hash id : String) (o : Option WorkerAuthCache)
    → IsOut id o
    → IsOut id (cached now hash o).1
unfolding get
get-IsOut now hash id none h = tt
get-IsOut now hash id (some c) (inl e) = inl (rw e e)
get-IsOut now hash id (some c) (inr f) = inr (get-IsFree id now hash c f)

set-IsOut :
    (now : ℕ) (hash id w : String) (o : Option WorkerAuthCache)
    → id ≢ w
    → IsOut id o
    → IsOut id (on_cache (set now hash w) o)
unfolding set
set-IsOut now hash id w none n h = tt
set-IsOut now hash id w (some c) n (inl e) = inl (rw e e)
set-IsOut now hash id w (some c) n (inr f) = inr (set-IsFree id now hash w c n f)

remember-IsOut :
    (now : ℕ) (hash id : String) (r : Result DbError AppWorker) (a : Access)
    → ((w : AppWorker) → r ≡ ok w → w.id ≢ id)
    → IsOut id a.cache
    → IsOut id (remember now hash r a).1.cache
remember-IsOut now hash id (ok w) a n h =
    set-IsOut now hash id w.id a.cache (λ e. n w refl (sym e)) h
remember-IsOut now hash id (err e) a n h = h

resolve-IsOut :
    (now : ℕ) (hash id : String) (worker : Option String) (a : Access)
    → IsRevokedIn id a
    → IsOut id (resolve now hash worker a).1.cache
resolve-IsOut now hash id (some w) a h = h.0
resolve-IsOut now hash id none a h =
    let (found, db) = statement (token_query hash) a.db in
    remember-IsOut now hash id found (record a { db = db })
      (λ w e.
        let (fs, answered, t) = statement_ok (token_query hash) a.db e in
        by_token-other hash id a.db.workers h.1 answered)
      h.0

authenticate-IsOut :
    (hash_token : String → String) (now : ℕ) (token : Option String) (id : String) (a : Access)
    → IsRevokedIn id a
    → IsOut id (authenticate_token hash_token now token a).1.cache
authenticate-IsOut hash_token now none id a h = h.0
authenticate-IsOut hash_token now (some token) id a h =
    let (worker, cache) = cached now (hash_token token) a.cache in
    resolve-IsOut now (hash_token token) id worker (record a { cache = cache })
      (get-IsOut now (hash_token token) id a.cache h.0, h.1)

authorized-cache :
    (call : WorkerCall) (service : WorkerService) (worker : Option String) (a : Access)
    → (authorized (worker_handler call) service (worker, a)).1.1.cache ≡ a.cache
authorized-cache call service none a = refl
authorized-cache call service (some w) a = refl

module _ (hash_token : String → String) (decodes : String → Bool) (id : String)
    (old : List AppJob) where
  served_barred :
      (requests : List WorkerRequest) (service : WorkerService) (a : Access)
      → IsOut id a.cache
      → IsBarred id old a.db
      → TookNothing id old (serve_all hash_token decodes requests (service, a)).1.db.jobs
  unfolding serve_all token_auth_handler_with_cache authenticate_worker_token
  served_barred [] service a out h = h.0
  served_barred (r ∷ requests) service a out h =
      let b = arrive r a in
      let token = parse_bearer_token decodes r.header in
      let (worker, c) = authenticate_token hash_token r.at token b in
      let after = (authorized (worker_handler r.call) service (worker, c)).1 in
      served_barred requests after.0 after.1
        (subst (IsOut id) (sym (authorized-cache r.call service worker c))
          (authenticate-IsOut hash_token r.at token id b (out, h.1)))
        (authorized-keeps (IsBarred id old) r.call service worker c
          (λ w e. IsBarred-IsKept id old w (λ same.
            authenticate_token-other hash_token r.at token id b (out, h.1)
              (e ∙ ap some (sym same))))
          (authenticate-keeps (IsBarred id old) (λ d fs k. k) hash_token r.at token b h))

-- Once RevokeEnrollment has answered that the worker is revoked, the worker takes no job any more: whatever
-- requests reach the worker service after that, with whatever headers, at whatever times and whatever
-- becomes of their statements, each job that is the worker's in the end was so, as it is, when
-- the revocation was answered. The cache is absent, or it was sound before the revocation.
pub revoked_takes_nothing :
    (hash_token : String → String) (decodes : String → Bool) (id reason : String) (a : Access)
    (requests : List WorkerRequest) (service : WorkerService)
    → CacheSound a.cache
    → is_ok (revoke_enrollment id reason a).0 ≡ true
    → TookNothing id
        (revoke_enrollment id reason a).1.db.jobs
        (serve_all hash_token decodes requests
          (service, (revoke_enrollment id reason a).1)).1.db.jobs
revoked_takes_nothing hash_token decodes id reason a requests service c h =
    let left = (revoke_enrollment id reason a).1 in
    let (out, shut) = revoke_enrollment-IsRevokedIn id reason a c h in
    served_barred hash_token decodes id left.db.jobs requests service left out
      (TookNothing-self id left.db.jobs, shut)
