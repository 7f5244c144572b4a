-- ===== src/ControlPlane/Token.antt =====
-- internal/app/control-plane/middleware/token_auth.go and internal/pkg/auth/auth.go: which worker a
-- request speaks for. `hash_token` stands for HashToken, the hexadecimal SHA-256 sum, and `decodes` for
-- the success of hex.DecodeString.
pub mod Requests
use Prim.Native.String.{len, slice}
use text.Mathlib.Text.{starts_with}
use openseer.Base.{
  ℕ, String, Bool, not, ◌&&◌, ◌||◌, Option, none, some, if◌then◌else◌, string_eq, nat_eq, ◌==◌,
  Result, ok, err,
}
use openseer.ControlPlane.AuthCache.{WorkerAuthCache, get, set}
use openseer.Store.Db.{Database, Db, statement}
use openseer.Store.Errors.{DbError}
use openseer.Store.Workers.{AppWorker, get_worker_by_token_hash}

-- The hexadecimal part behind the prefix "ostk_".
unfoldable pub validate_token_format : (String → Bool) → String → Bool
validate_token_format decodes token =
    let hex_part = slice token 5 (len token) in
    starts_with token "ostk_" && len hex_part == 64 && decodes hex_part

-- The token behind "Bearer ", or none for errUnauthenticated.
unfoldable pub parse_bearer_token : (String → Bool) → String → Option String
unfolding validate_token_format
parse_bearer_token decodes header =
    let token = slice header 7 (len header) in
    if header == ""
      || not (starts_with header "Bearer ")
      || not (validate_token_format decodes token)
    then none
    else some token

-- What the control plane keeps of its workers: the cache, which may be absent, and the database.
pub record Access : Type 0 where
  pub cache : Option WorkerAuthCache
  pub db : Database

abbrev pub cached : ℕ → String → Option WorkerAuthCache → Option String × Option WorkerAuthCache
cached now hash none = (none, none)
cached now hash (some c) = let (worker, c') = get now hash c in (worker, some c')

abbrev pub on_cache :
    (WorkerAuthCache → WorkerAuthCache) → Option WorkerAuthCache → Option WorkerAuthCache
on_cache f none = none
on_cache f (some c) = some (f c)

abbrev pub token_query : String → Db AppWorker
token_query hash s = (get_worker_by_token_hash hash s.workers, s)

abbrev pub remember : ℕ → String → Result DbError AppWorker → Access → Option String × Access
remember now hash (ok w) a = (some w.id, record a { cache = on_cache (set now hash w.id) a.cache })
remember now hash (err e) a = (none, a)

-- The lookup of a token's hash: in the cache, then in the database.
abbrev pub resolve : ℕ → String → Option String → Access → Option String × Access
resolve now hash (some worker) a = (some worker, a)
resolve now hash none a =
    let (found, db) = statement (token_query hash) a.db in
    remember now hash found (record a { db = db })

abbrev pub authenticate_token :
    (String → String) → ℕ → Option String → Access → Option String × Access
authenticate_token hash_token now none a = (none, a)
authenticate_token hash_token now (some token) a =
    let (worker, cache) = cached now (hash_token token) a.cache in
    resolve now (hash_token token) worker (record a { cache = cache })

-- The worker that an Authorization header authenticates, or none for errUnauthenticated. One step: a
-- lookup that is under way while a revocation clears the cache is not modelled.
unfoldable pub authenticate_worker_token :
    (String → String) → (String → Bool) → ℕ → String → Access → Option String × Access
authenticate_worker_token hash_token decodes now header =
    authenticate_token hash_token now (parse_bearer_token decodes header)

-- The worker's id in the context that the authentication makes.
abbrev pub Context : Type 0
Context = Option String

abbrev pub worker_id_from_context : Context → Option String
worker_id_from_context ctx = ctx

-- What is called with the context; `S` is its own state.
abbrev pub Next : Type 0 → Type 0 → Type 0
Next S A = Context → S × Access → A × (S × Access)

abbrev pub authorized :
    {S A : Type 0} → Next S A → S → Option String × Access → Option A × (S × Access)
authorized next s (none, a) = (none, (s, a))
authorized next s (some id, a) = let (answer, sa) = next (some id) (s, a) in (some answer, sa)

-- The answer of `next`, or none for http.StatusUnauthorized.
unfoldable pub token_auth_handler_with_cache :
    {S A : Type 0}
    → (String → String)
    → (String → Bool)
    → Next S A
    → ℕ
    → String
    → S × Access
    → Option A × (S × Access)
unfolding authenticate_worker_token
token_auth_handler_with_cache hash_token decodes next now header (s, a) =
    authorized next s (authenticate_worker_token hash_token decodes now header a)
