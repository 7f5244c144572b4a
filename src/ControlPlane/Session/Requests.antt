-- ===== src/ControlPlane/Session/Requests.antt =====
-- Requests to the monitors service (internal/app/control-plane/api/monitors/service.go) behind the session
-- middleware (internal/app/control-plane/auth/session/middleware.go), as cmd/control-plane composes them.
use openseer.Base.{
  String, ◌≡◌, refl, sym, ap, ◌∙◌, subst, ◌⊎◌, inl, inr, Bool, false, Option, none, some, List, [],
  ◌∷◌, arith, Bool-cases, Option-cases, filter, string_eq, nat_eq, ◌==◌, str_eq_iff, Result, ok,
}
use openseer.ControlPlane.MonitorsService.Ownership.{
  others, MonitorCall, after_call, calls_keep_others,
}
use openseer.ControlPlane.Session.{Request, extract_session_token, Handler, with_session, for_user}
use openseer.ControlPlane.Session.Sound.{IsSigned, IsKnown, session_passes}
use openseer.ControlPlane.WorkerService.{Code}
use openseer.Store.Db.{Database}
use openseer.Store.Monitors.{AppMonitor, owned_by}
use openseer.Store.Sessions.{User, Session}

abbrev pub owned : String → List AppMonitor → List AppMonitor
owned user = filter (λ m. owned_by user m.user_id)

owned-others :
    (user owner : String)
    → (owner == user) ≡ false
    → (monitors : List AppMonitor) → owned owner (others user monitors) ≡ owned owner monitors
owned-others user owner ne [] = refl
owned-others user owner ne (m ∷ monitors) = elim (Option-cases m.user_id) [
  | inl e ↦ rw e (owned-others user owner ne monitors)
  | inr (v, e) ↦ rw e (
      ground (
        arith,
        str_eq_iff v user,
        str_eq_iff v owner,
        str_eq_iff owner user,
        owned-others user owner ne monitors,
      ))
]

same_others :
    (user owner : String) (old new : List AppMonitor)
    → (owner == user) ≡ false
    → others user new ≡ others user old
    → owned owner new ≡ owned owner old
same_others user owner old new ne h =
    sym (owned-others user owner ne new) ∙ (ap (owned owner) h ∙ owned-others user owner ne old)

module _ (clean : String → String) (parses : String → Bool) where
  -- The handler of a call that changes the table, with its answer left out.
  abbrev pub monitor_handler : MonitorCall → Handler (Result Code (Unit {0}))
  monitor_handler call = for_user (λ user s. (ok tt, after_call clean parses user call s))

  handler_keeps :
      (owner : String) (call : MonitorCall) (user : Option User) (s : Database)
      → (owned owner (monitor_handler call user s).1.monitors ≡ owned owner s.monitors)
        ⊎ ((u : User) × (user ≡ some u) × (u.id ≡ owner))
  unfolding for_user
  handler_keeps owner call none s = inl refl
  handler_keeps owner call (some u) s = elim (Bool-cases (owner == u.id)) [
    | inl e ↦ inr (u, refl, sym ((str_eq_iff owner u.id).0 e))
    | inr e ↦
        inl (same_others u.id owner s.monitors _ e (calls_keep_others clean parses u.id call s))
  ]

  -- A request to create, change or delete a monitor leaves the monitors of each user as they are, unless
  -- it carries a token with a valid signature that names a session of that user which is stored and has
  -- not run out. Whatever faults the statements meet.
  pub requests_keep_owned :
      (sign : String → String → String) (secret : String) (trim : String → String)
      (path_unescape : String → Option String) (call : MonitorCall) (r : Request) (s : Database)
      (owner : String)
      → (owned owner
            (with_session sign secret trim path_unescape (monitor_handler call) r s).1.monitors
          ≡ owned owner s.monitors)
        ⊎ ((x : Session) × (x.user.id ≡ owner)
            × IsSigned sign secret (extract_session_token trim path_unescape r) s x)
  requests_keep_owned sign secret trim path_unescape call r s owner =
      let (user, fs, e, known) =
        session_passes sign secret trim path_unescape (monitor_handler call) r s in
      elim (handler_keeps owner call user (record s { faults = fs })) [
        | inl kept ↦ inl (rw e kept)
        | inr (u, is_user, mine) ↦
            let (x, same, signed) =
              subst (IsKnown sign secret (extract_session_token trim path_unescape r) s) is_user
                known in
            inr (x, ap (λ v. v.id) same ∙ mine, signed)
      ]
