-- ===== src/ControlPlane/Enrollment/Issued.antt =====
-- The token that EnrollWorker and RenewEnrollment of internal/app/control-plane/api/enrollment/service.go
-- issue, against the authentication of internal/app/control-plane/middleware/token_auth.go.
use openseer.Base.{
  ℕ, String, ◌≡◌, refl, sym, ap, ◌∙◌, subst, ◌≢◌, ◌⊎◌, inl, inr, Bool, true, false, ◌&&◌, Option,
  none, some, List, [], ◌∷◌, arith, Bool-cases, Option-cases, All, any, find, find_sound, All-find,
  string_eq, nat_eq, ◌==◌, str_eq_iff, str_eq_self, Result, ok,
}
use openseer.ControlPlane.Enrollment.{set_token_query, cache_token, issue_token}
use openseer.ControlPlane.Token.{
  parse_bearer_token, Access, cached, on_cache, token_query, resolve, authenticate_worker_token,
}
use openseer.Store.Db.{Database, statement_served}
use openseer.Store.Workers.{
  is_revoked, AppWorker, has_id, has_token, get_worker_by_token_hash, set_worker_token,
}
use openseer.ControlPlane.AuthCache.{WorkerAuthCache, enabled, get, set, invalidate_worker}
use openseer.ControlPlane.AuthCache.Revocation.{
  IsFreeAt, set-IsFreeAt, set_other-IsFreeAt, invalidate_worker-IsFreeAt, get_held,
  invalidated-IsFree,
}
use openseer.ControlPlane.Enrollment.Revoked.{
  id_or, CacheSound, disabled_unanswered, disabled_same, resolve-other,
}
use openseer.Store.Errors.{DbError}

abbrev with_token : String → AppWorker → AppWorker
with_token hash w = record w { token_hash = some hash }

has_token-with_token :
    (hash : String) (w : AppWorker)
    → is_revoked w.status ≡ false
    → has_token hash (with_token hash w) ≡ true
unfolding has_token
has_token-with_token hash w h = rw (str_eq_self hash, h) refl

-- The first row with the new hash is the first row of the worker.
find-set_worker_token :
    (hash id : String) (workers : List AppWorker) {w : AppWorker}
    → any (has_token hash) workers ≡ false
    → find (has_id id) workers ≡ some w
    → is_revoked w.status ≡ false
    → find (has_token hash) (set_worker_token (some hash) id workers) ≡ some (with_token hash w)
unfolding set_worker_token
find-set_worker_token hash id [] fresh found_it h = cc
find-set_worker_token hash id (x ∷ workers) {w} fresh found_it h = elim (Bool-cases (x.id == id)) [
  | inl e ↦
      let first : some x ≡ some w = rw e at found_it in
      let same : w ≡ x = sym (ap (worker_or x) first) in
      let mine = has_token-with_token hash x (subst (λ v. is_revoked v.status ≡ false) same h) in
      rw (e, mine, same) refl
  | inr e ↦
      let other : has_token hash x ≡ false = ground arith in
      rw (e, other) (find-set_worker_token hash id workers (ground arith) (rw e at found_it) h)
]
  where
    worker_or : AppWorker → Option AppWorker → AppWorker
    worker_or d none = d
    worker_or d (some v) = v

get_issued :
    (hash id : String) (workers : List AppWorker) {w : AppWorker}
    → any (has_token hash) workers ≡ false
    → find (has_id id) workers ≡ some w
    → is_revoked w.status ≡ false
    → get_worker_by_token_hash hash (set_worker_token (some hash) id workers)
      ≡ ok (with_token hash w)
unfolding get_worker_by_token_hash
get_issued hash id workers fresh row h =
    rw (find-set_worker_token hash id workers fresh row h, get_worker_by_token_hash) refl

-- No other worker has a cached entry under the hash.
abbrev pub KnowsOnly : String → String → Option WorkerAuthCache → Type 0
KnowsOnly id hash none = Unit
KnowsOnly id hash (some c) = (v : String) → v ≢ id → IsFreeAt v hash c

-- InvalidateWorker and then Set, as a new token is issued.
cache_token-KnowsOnly :
    (now : ℕ) (hash id : String) (o : Option WorkerAuthCache)
    → KnowsOnly id hash o
    → KnowsOnly id hash (on_cache (cache_token now hash id) o)
cache_token-KnowsOnly now hash id none h = tt
cache_token-KnowsOnly now hash id (some c) h = λ v ne.
    set-IsFreeAt v hash now hash id (invalidate_worker id c) ne
      (invalidate_worker-IsFreeAt v hash id c (h v ne))

cached-cases :
    (now : ℕ) (hash id : String) (o : Option WorkerAuthCache)
    → KnowsOnly id hash o
    → ((cached now hash o).0 ≡ none) ⊎ ((cached now hash o).0 ≡ some id)
cached-cases now hash id none h = inl refl
cached-cases now hash id (some c) h = elim (Option-cases (get now hash c).0) [
  | inl e ↦ inl e
  | inr (v, e) ↦ elim (Bool-cases (v == id)) [
    | inl t ↦ inr (e ∙ ap (λ x. some x) ((str_eq_iff v id).0 t))
    | inr t ↦
        let other : v ≢ id = λ same. absurd (ground (arith, str_eq_iff v id)) in
        let gone = h v other in absurd (ground (arith, get_held now hash v c e))
  ]
]

-- A hash that the table finds at the worker, and no other worker in the cache, is the worker's.
resolved :
    (now : ℕ) (hash id : String) (worker : Option String) (a : Access) {w : AppWorker}
    → a.db.faults ≡ []
    → get_worker_by_token_hash hash a.db.workers ≡ ok w
    → w.id ≡ id
    → (worker ≡ none) ⊎ (worker ≡ some id)
    → (resolve now hash worker a).0 ≡ some id
resolved now hash id worker a none_lost e own (inr held) = rw held refl
resolved now hash id worker a none_lost e own (inl miss) =
    rw (miss, statement_served (token_query hash) a.db none_lost, e) (ap (λ x. some x) own)

abbrev IsReplaced : String → String → AppWorker → Type 0
IsReplaced old id w = (w.id == id && has_token old w) ≡ false

set_worker_token-IsReplaced :
    (hash old id : String) (workers : List AppWorker)
    → (hash == old) ≡ false
    → All (IsReplaced old id) (set_worker_token (some hash) id workers)
unfolding set_worker_token has_token
set_worker_token-IsReplaced hash old id [] ne = tt
set_worker_token-IsReplaced hash old id (w ∷ workers) ne = (
  elim (Bool-cases (w.id == id)) [
    | inl e ↦ rw (e, ne) (ground arith)
    | inr e ↦ rw e (ground arith)
  ],
  set_worker_token-IsReplaced hash old id workers ne,
)

-- The row that another hash finds is not the worker's.
replaced-other :
    (old id : String) (workers : List AppWorker) {w : AppWorker}
    → All (IsReplaced old id) workers
    → get_worker_by_token_hash old workers ≡ ok w
    → w.id ≢ id
unfolding get_worker_by_token_hash
replaced-other old id workers {w} gone h same = elim (Option-cases (find (has_token old) workers)) [
  | inl e ↦ let h' = rw (e, get_worker_by_token_hash) at h in absurd (ground arith)
  | inr (x, e) ↦
      let out = All-find _ (has_token old) workers gone e in
      let held = find_sound (has_token old) workers e in
      let row : Path (Result DbError AppWorker) (ok x) (ok w) =
        rw (e, get_worker_by_token_hash) at h in
      let at_id : x.id ≡ id = ap (id_or id) row ∙ same in
      absurd (ground (arith, str_eq_iff x.id id))
]

disabled_set :
    (now : ℕ) (k w : String) (c : WorkerAuthCache) → enabled c ≡ false → set now k w c ≡ c
unfolding set
disabled_set now k w c e = rw e refl

-- The cache does not answer another hash with the worker once its entries were dropped.
uncached-other :
    (now later : ℕ) (hash old id : String) (o : Option WorkerAuthCache)
    → CacheSound o
    → (id == "") ≡ false
    → (hash == old) ≡ false
    → (cached later old (on_cache (cache_token now hash id) o)).0 ≢ some id
uncached-other now later hash old id none h n ne = λ e. absurd (ground arith)
uncached-other now later hash old id (some c) h n ne = elim (Bool-cases (enabled c)) [
  | inl t ↦ λ e.
      let kept =
        set_other-IsFreeAt id old now hash id (invalidate_worker id c) ne
          (invalidated-IsFree id c h (rw (t, n) refl) old) in
      absurd (ground (arith, get_held later old id (set now hash id (invalidate_worker id c)) e))
  | inr t ↦
      rw (disabled_same id c t, disabled_set now hash id c t) (disabled_unanswered id c t later old)
]

-- When a token is issued to a worker that is not revoked, and its hash is that of no worker so far, a
-- header with that token authenticates as the worker at any later time: through the cache, from which
-- its entry may be gone, or through the table; and a header with a token of another hash, like the one
-- that it replaces, does not authenticate as the worker. The statements are served; the cache, which
-- may be absent or off, is sound and has no entry of another worker under that hash.
pub issued_token_authenticates :
    (hash_token : String → String) (decodes : String → Bool) (now later : ℕ)
    (id token header old_token old_header : String) (a : Access) {w : AppWorker}
    → a.db.faults ≡ []
    → find (has_id id) a.db.workers ≡ some w
    → is_revoked w.status ≡ false
    → any (has_token (hash_token token)) a.db.workers ≡ false
    → KnowsOnly id (hash_token token) a.cache
    → CacheSound a.cache
    → (id == "") ≡ false
    → parse_bearer_token decodes header ≡ some token
    → parse_bearer_token decodes old_header ≡ some old_token
    → (hash_token token == hash_token old_token) ≡ false
    → let a' = (issue_token now (hash_token token) id a).1 in
      ((authenticate_worker_token hash_token decodes later header a').0 ≡ some id)
      × ((authenticate_worker_token hash_token decodes later old_header a').0 ≢ some id)
unfolding authenticate_worker_token issue_token
issued_token_authenticates hash_token decodes now later id token header old_token old_header a {w}
      none_lost row open_row fresh knows sound named parsed old_parsed ne =
    let hash = hash_token token in
    let old = hash_token old_token in
    let own = (str_eq_iff w.id id).0 (find_sound (has_id id) a.db.workers row) in
    let o = on_cache (cache_token now hash id) a.cache in
    let workers = set_worker_token (some hash) id a.db.workers in
    let db' : Database = record a.db { workers = workers; faults = [] } in
    (
      rw (parsed, statement_served (set_token_query (some hash) id) a.db none_lost)
          (resolved later hash id (cached later hash o).0
            (record { cache = (cached later hash o).1; db = db' }) refl
            (get_issued hash id a.db.workers fresh row open_row) own
            (cached-cases later hash id o (cache_token-KnowsOnly now hash id a.cache knows))),
      rw (old_parsed, statement_served (set_token_query (some hash) id) a.db none_lost)
          (resolve-other later old id (cached later old o).0
            (record { cache = (cached later old o).1; db = db' })
            (uncached-other now later hash old id a.cache sound named ne)
            (λ x e.
              replaced-other old id workers
                (set_worker_token-IsReplaced hash old id a.db.workers ne) e)),
    )
