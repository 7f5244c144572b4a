-- ===== src/ControlPlane/Session/Sound.antt =====
-- Whom the session middleware (internal/app/control-plane/auth/session/middleware.go) lets through.
use mathlib.Core.List.{Mem, mem-cons_self, mem-cons_of_mem}
use openseer.Base.{
  ℕ, String, ◌≡◌, refl, ap, subst, ◌≢◌, inl, inr, true, Option, none, some, List, [], ◌∷◌, arith,
  Bool-cases, Option-cases, find, or_default, find_sound, find-Mem, string_eq, nat_eq, ◌==◌,
  str_eq_iff, Result, ok, err, Result-cases,
}
use openseer.ControlPlane.Session.{
  Request, split_once, extract_session_token, session_query, session_outcome, check_parts,
  verify_session, user_of, Handler, with_session,
}
use openseer.Store.Db.{Fault, Database, statement, statement_keeps, statement_ok}
use openseer.Store.Sessions.{User, SessionRow, Session, is_current, with_user, find_session}

abbrev session_or_ok {ℓ} : {E : Type ℓ} → Session → Result E Session → Session
session_or_ok d (ok x) = x
session_or_ok d (err e) = d

-- A row of the sessions that holds the token and has not run out, joined to its user.
abbrev pub IsCurrent : ℕ → String → List User → List SessionRow → Session → Type 0
IsCurrent now token users sessions x =
    Mem x.row sessions
    × (is_current now token x.row ≡ true)
    × Mem x.user users
    × ((x.user.id == x.row.user_id) ≡ true)

-- A token of two parts, the second the signature of the first, whose first part names a current session.
pub record IsSigned (sign : String → String → String) (secret token : String) (s : Database)
    (x : Session) : Type 0 where
  pub token_id : String
  pub parts : split_once token "." ≡ some (token_id, sign secret token_id)
  pub keyed : secret ≢ ""
  pub session : IsCurrent s.clock token_id s.users s.sessions x

module _ (now : ℕ) (token : String) (users : List User) where
  later :
      (s : SessionRow) (sessions : List SessionRow) {x : Session}
      → IsCurrent now token users sessions x
      → IsCurrent now token users (s ∷ sessions) x
  later s sessions (stored, current, known, joined) =
      (mem-cons_of_mem s stored, current, known, joined)

  find_session_sound :
      (sessions : List SessionRow) {x : Session}
      → find_session now token users sessions ≡ some x
      → IsCurrent now token users sessions x
  unfolding find_session
  find_session_sound [] h = absurd (ground arith)
  find_session_sound (s ∷ sessions) {x} h = elim (Bool-cases (is_current now token s)) [
    | inl e ↦ elim (Option-cases (find (λ u. u.id == s.user_id) users)) [
      | inl f ↦ later s sessions (find_session_sound sessions (rw (e, f) at h))
      | inr (u, f) ↦
          let same : some (with_user s u) ≡ some x = rw (e, f) at h in
          subst (IsCurrent now token users (s ∷ sessions)) (ap (or_default x) same) (
            mem-cons_self,
            e,
            find-Mem (λ v. v.id == s.user_id) users f,
            find_sound (λ v. v.id == s.user_id) users f,
          )
    ]
    | inr e ↦ later s sessions (find_session_sound sessions (rw e at h))
  ]

query_sound :
    (token : String) (s : Database) {x : Session}
    → (session_query token s).0 ≡ ok x
    → IsCurrent s.clock token s.users s.sessions x
query_sound token s {x} h = elim (Option-cases (find_session s.clock token s.users s.sessions)) [
  | inl e ↦ let h' = rw e at h in absurd (ground arith)
  | inr (y, e) ↦
      find_session_sound s.clock token s.users s.sessions
        (rw e (ap some (ap (session_or_ok y) (rw e at h))))
]

module _ (sign : String → String → String) (secret : String) where
  outcome_sound :
      (token : String) (s : Database) {x : Session}
      → session_outcome (statement (session_query token) s).0 ≡ ok x
      → IsCurrent s.clock token s.users s.sessions x
  outcome_sound token s {x} h = elim (Result-cases (statement (session_query token) s).0) [
    | inl (y, e) ↦
        let (fs, answer, t) = statement_ok (session_query token) s e in
        subst (IsCurrent s.clock token s.users s.sessions) (ap (session_or_ok y) (rw e at h))
          (query_sound token (record s { faults = fs }) answer)
    | inr (d, e) ↦ let h' = rw e at h in absurd (ground arith)
  ]

  check_parts_sound :
      (parts : Option (String × String)) (s : Database) {x : Session}
      → (check_parts sign secret parts s).0 ≡ ok x
      → (id : String) × (parts ≡ some (id, sign secret id))
        × (secret ≢ "")
        × IsCurrent s.clock id s.users s.sessions x
  unfolding check_parts
  check_parts_sound none s h = absurd (ground arith)
  check_parts_sound (some (id, sig)) s {x} h = elim (Bool-cases (secret == "")) [
    | inl e ↦ let h' = rw e at h in absurd (ground arith)
    | inr e ↦ elim (Bool-cases (sign secret id == sig)) [
      | inl f ↦ (
        id,
        (cc ((str_eq_iff (sign secret id) sig).0 f)),
        λ z. absurd (ground (arith, str_eq_iff secret "")),
        outcome_sound id s (rw (e, f) at h),
      )
      | inr f ↦ let h' = rw (e, f) at h in absurd (ground arith)
    ]
  ]

  pub verify_sound :
      (token : String) (s : Database) {x : Session}
      → (verify_session sign secret token s).0 ≡ ok x
      → IsSigned sign secret token s x
  unfolding verify_session
  verify_sound token s {x} h =
      let (id, e, keyed, current) = check_parts_sound (split_once token ".") s h in
      record { token_id = id; parts = e; keyed = keyed; session = current }

  abbrev Frame : Database → Database → Type 0
  Frame s t = (fs : List Fault) × (t ≡ record s { faults = fs })

  check-Frame :
      (parts : Option (String × String)) (s : Database)
      → Frame s (check_parts sign secret parts s).1
  unfolding check_parts
  check-Frame none s = (s.faults, refl)
  check-Frame (some (id, sig)) s = elim (Bool-cases (secret == "")) [
    | inl e ↦ rw e (s.faults, refl)
    | inr e ↦ elim (Bool-cases (sign secret id == sig)) [
      | inl f ↦
          rw (e, f)
            (statement_keeps (Frame s) (session_query id) (λ t gs h. (gs, rw h.1 refl)) (λ t h. h) s
              (s.faults, refl))
      | inr f ↦ rw (e, f) (s.faults, refl)
    ]
  ]

  verify-Frame : (token : String) (s : Database) → Frame s (verify_session sign secret token s).1
  unfolding verify_session
  verify-Frame token s = check-Frame (split_once token ".") s

  -- The user of a context comes from a signed token of a current session.
  abbrev pub IsKnown : String → Database → Option User → Type 0
  IsKnown token s none = Unit
  IsKnown token s (some u) = (x : Session) × (x.user ≡ u) × IsSigned sign secret token s x

  verified-IsKnown :
      (token : String) (s : Database)
      → IsKnown token s (user_of (verify_session sign secret token s).0)
  verified-IsKnown token s = elim (Result-cases (verify_session sign secret token s).0) [
    | inl (x, e) ↦ rw e (x, refl, verify_sound token s e)
    | inr (d, e) ↦ rw e tt
  ]

  -- Whatever the handler behind the middleware is, it is called once, on the database as it was but for
  -- the faults used up, with no user or with the user of a session that is stored and has not run out,
  -- named by a token of the request with a valid signature.
  pub session_passes :
      {A : Type 0} (trim : String → String) (path_unescape : String → Option String)
      (next : Handler A) (r : Request) (s : Database)
      → (user : Option User) × (fs : List Fault) × (with_session sign secret trim path_unescape next
            r s
          ≡ next user (record s { faults = fs }))
        × IsKnown (extract_session_token trim path_unescape r) s user
  unfolding with_session
  session_passes trim path_unescape next r s =
      let token = extract_session_token trim path_unescape r in
      let (fs, e) = verify-Frame token s in
      elim (Bool-cases (token == "")) [
        | inl t ↦ (none, s.faults, rw t refl, tt)
        | inr t ↦ (
          user_of (verify_session sign secret token s).0,
          fs,
          rw (t, e) refl,
          verified-IsKnown token s,
        )
      ]
