-- ===== src/ControlPlane/Session.antt =====
-- internal/app/control-plane/auth/session/middleware.go: the user that a request of the web front end
-- speaks for. `sign secret id` stands for the base64 text of the HMAC-SHA-256 of a token's id; `trim` for
-- strings.TrimSpace; `path_unescape` for url.PathUnescape, none on an error.
pub mod Sound
pub mod Requests
use Prim.Native.String.{len, slice}
use text.Mathlib.Text.{find?}
use openseer.Base.{
  ◌+◌, ◌-◌, ◌%◌, String, ◌&&◌, Option, none, some, List, [], ◌∷◌, leb, if◌then◌else◌, is_some,
  string_eq, nat_eq, ◌==◌, Result, ok, err,
}
use openseer.Base.Dict.{lookup, insert}
use openseer.Store.Db.{Database, Db, statement}
use openseer.Store.Errors.{DbError, no_rows, constraint, unavailable}
use openseer.Store.Sessions.{User, Session, find_session}
use openseer.ControlPlane.WorkerService.{Code, unauthenticated}

pub record Cookie : Type 0 where
  pub name : String
  pub value : String

-- The Authorization header ("" when there is none) and the cookies, of which the loop skips nil.
pub record Request : Type 0 where
  pub authorization : String
  pub cookies : List (Option Cookie)

-- strings.SplitN(s, sep, 2), when it gives two parts.
unfoldable pub split_once : String → String → Option (String × String)
split_once s sep = elim (find? s sep) [
  | none ↦ none
  | some i ↦ some (slice s 0 i, slice s (i + len sep) (len s))
]

abbrev pub bearer_of : Option (String × String) → String
bearer_of none = ""
bearer_of (some (scheme, token)) = if scheme == "Bearer" then token else ""

unfoldable pub extract_session_from_headers : Request → String
unfolding split_once
extract_session_from_headers r =
    if r.authorization == "" then "" else bearer_of (split_once r.authorization " ")

abbrev pub add_first : Cookie → List (String × String) → Option String → List (String × String)
add_first c available none = insert c.name c.value available
add_first c available (some v) = available

-- The first cookie of each name.
unfoldable pub available_cookies :
    List (Option Cookie) → List (String × String) → List (String × String)
available_cookies [] available = available
available_cookies (none ∷ cookies) available = available_cookies cookies available
available_cookies (some c ∷ cookies) available =
    available_cookies cookies (add_first c available (lookup c.name available))

abbrev pub valid_cookie_names : List String
valid_cookie_names =
    "__Host-openseer.session_token" ∷ "__Secure-openseer.session_token" ∷ "openseer.session_token"
    ∷ []

abbrev pub or_value : String → Option String → String
or_value value none = value
or_value value (some decoded) = decoded

abbrev pub decode_value : (String → Option String) → String → String
decode_value path_unescape value =
    if is_some (find? value "%") then or_value value (path_unescape value) else value

abbrev pub unquote : String → String
unquote value =
    if leb 2 (len value)
      && slice value 0 1 == "\""
      && slice value (len value - 1) (len value) == "\""
    then slice value 1 (len value - 1)
    else value

module _ (trim : String → String) (path_unescape : String → Option String) where
  -- What a cookie's value gives, or "" when the loop goes on to the next name.
  unfoldable pub cookie_value : Option String → String
  cookie_value none = ""
  cookie_value (some value) =
      if value == "" then "" else trim (unquote (decode_value path_unescape value))

  unfoldable pub first_value : List (String × String) → List String → String
  unfolding cookie_value
  first_value available [] = ""
  first_value available (name ∷ names) =
      let value = cookie_value (lookup name available) in
      let rest = first_value available names in if value == "" then rest else value

  unfoldable pub extract_session_from_cookies : Request → String
  unfolding first_value available_cookies
  extract_session_from_cookies r = first_value (available_cookies r.cookies []) valid_cookie_names

  unfoldable pub extract_session_token : Request → String
  unfolding extract_session_from_headers extract_session_from_cookies
  extract_session_token r =
      let token = extract_session_from_headers r in
      if token == "" then extract_session_from_cookies r else token

pub data SessionError : Type 0 where
  missing_signature no_secret bad_signature not_found_or_expired query_failed : SessionError

abbrev pub or_no_rows : Option Session → Result DbError Session
or_no_rows none = err no_rows
or_no_rows (some x) = ok x

abbrev pub session_query : String → Db Session
session_query token s = (or_no_rows (find_session s.clock token s.users s.sessions), s)

abbrev pub session_error : DbError → SessionError
session_error no_rows = not_found_or_expired
session_error constraint = query_failed
session_error unavailable = query_failed

abbrev pub session_outcome : Result DbError Session → Result SessionError Session
session_outcome (ok x) = ok x
session_outcome (err e) = err (session_error e)

module _ (sign : String → String → String) (secret : String) where
  unfoldable pub check_parts :
      Option (String × String) → Database → Result SessionError Session × Database
  check_parts none s = (err missing_signature, s)
  check_parts (some (token_id, provided_signature)) s =
      let (r, s') = statement (session_query token_id) s in
      if secret == ""
      then (err no_secret, s)
      else if sign secret token_id == provided_signature
      then (session_outcome r, s')
      else (err bad_signature, s)

  unfoldable pub verify_session : String → Database → Result SessionError Session × Database
  unfolding check_parts split_once
  verify_session session_token = check_parts (split_once session_token ".")

-- The user of the context.
abbrev pub user_of : Result SessionError Session → Option User
user_of (ok x) = some x.user
user_of (err e) = none

-- A handler takes the user of its request's context, if there is one.
abbrev pub Handler : Type 0 → Type 0
Handler A = Option User → Database → A × Database

unfoldable pub with_session :
    {A : Type 0}
    → (String → String → String)
    → String
    → (String → String)
    → (String → Option String)
    → Handler A
    → Request
    → Database
    → A × Database
unfolding extract_session_token verify_session
with_session sign secret trim path_unescape next r s =
    let token = extract_session_token trim path_unescape r in
    let (checked, s') = verify_session sign secret token s in
    if token == "" then next none s else next (user_of checked) s'

-- How a service's handler begins: no user in the context is CodeUnauthenticated.
unfoldable pub for_user :
    {A : Type 0} → (String → Database → Result Code A × Database) → Handler (Result Code A)
for_user call none s = (err unauthenticated, s)
for_user call (some user) s = call user.id s
