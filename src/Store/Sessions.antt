-- ===== src/Store/Sessions.antt =====
-- The tables of users and sessions that internal/app/control-plane/auth/session/middleware.go reads.
use openseer.Base.{
  ℕ, String, Bool, ◌&&◌, Option, none, some, List, [], ◌∷◌, ltb, if◌then◌else◌, find, string_eq,
  nat_eq, ◌==◌,
}

pub record User : Type 0 where
  pub id : String
  pub name : String
  pub email : String
  pub email_verified : Bool
  pub image : Option String
  pub created_at : ℕ
  pub updated_at : ℕ

-- A row of the table `session`.
pub record SessionRow : Type 0 where
  pub id : String
  pub expires_at : ℕ
  pub token : String
  pub created_at : ℕ
  pub updated_at : ℕ
  pub ip_address : Option String
  pub user_agent : Option String
  pub user_id : String

-- A row with the user that it is joined to.
pub record Session : Type 0 where
  pub row : SessionRow
  pub user : User

-- `s.token = $1 AND s."expiresAt" > NOW()`
abbrev pub is_current : ℕ → String → SessionRow → Bool
is_current now token s = s.token == token && ltb now s.expires_at

abbrev pub with_user : SessionRow → User → Session
with_user s u = record { row = s; user = u }

abbrev pub or_next : SessionRow → Option User → Option Session → Option Session
or_next s none next = next
or_next s (some u) next = some (with_user s u)

-- JOIN "user" u ON s."userId" = u.id, read by QueryRow, which takes the first row.
unfoldable pub find_session : ℕ → String → List User → List SessionRow → Option Session
find_session now token users [] = none
find_session now token users (s ∷ sessions) =
    let next = find_session now token users sessions in
    if is_current now token s then or_next s (find (λ u. u.id == s.user_id) users) next else next
