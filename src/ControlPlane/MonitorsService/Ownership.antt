-- ===== src/ControlPlane/MonitorsService/Ownership.antt =====
-- Whose monitors the calls of internal/app/control-plane/api/monitors/service.go read and change.
use openseer.Base.{
  ℕ, String, ◌≡◌, refl, ◌∙◌, subst, inl, inr, Bool, true, not, ◌||◌, some, List, [], ◌∷◌, ◌++◌,
  arith, Bool-cases, Option-cases, filter, any, find, string_eq, nat_eq, ◌==◌, str_eq_self, Result,
  ok, err,
}
use openseer.ControlPlane.MonitorsService.{
  CreateMonitorRequest, UpdateMonitorRequest, create_params, db_monitor_to_proto, health_query,
  with_warnings, stored, create_query, create_monitor_call, by_user_query, update_params,
  update_query, update_found, update_monitor_call, delete_query, delete_monitor_call,
}
use openseer.ControlPlane.WorkerService.{Code}
use openseer.Store.Db.{Database, Db, statement, statement_keeps}
use openseer.Store.Errors.{DbError}
use openseer.Store.Monitors.{
  AppMonitor, owned_by, is_users, set_where, update_one, MonitorParams, create_monitor,
  update_monitor_by_user, delete_monitor_by_user,
}

-- The rows that are not the user's.
abbrev pub others : String → List AppMonitor → List AppMonitor
others user = filter (λ m. not (owned_by user m.user_id))

-- The calls that change the table.
pub data MonitorCall : Type 0 where
  create_call : CreateMonitorRequest → MonitorCall
  update_call : UpdateMonitorRequest → MonitorCall
  delete_call : String → MonitorCall

unfoldable pub after_call :
    (String → String) → (String → Bool) → String → MonitorCall → Database → Database
unfolding create_monitor_call update_monitor_call delete_monitor_call
after_call clean parses user (create_call msg) s = (create_monitor_call clean parses user msg s).1
after_call clean parses user (update_call msg) s = (update_monitor_call clean parses user msg s).1
after_call clean parses user (delete_call id) s = (delete_monitor_call user id s).1

module _ (user : String) where
  others-set_where :
      (p : AppMonitor → Bool) (f : AppMonitor → AppMonitor)
      → ((m : AppMonitor) → p m ≡ true → owned_by user m.user_id ≡ true)
      → ((m : AppMonitor) → (f m).user_id ≡ m.user_id)
      → (monitors : List AppMonitor) → others user (set_where p f monitors) ≡ others user monitors
  others-set_where p f own keep [] = refl
  others-set_where p f own keep (m ∷ monitors) = elim (Bool-cases (p m)) [
    | inl e ↦ rw (e, keep m, own m e) (others-set_where p f own keep monitors)
    | inr e ↦ rw e (ground (arith, others-set_where p f own keep monitors))
  ]

  others-append :
      (n : AppMonitor)
      → owned_by user n.user_id ≡ true
      → (monitors : List AppMonitor) → others user (monitors ++ n ∷ []) ≡ others user monitors
  others-append n own [] = rw own refl
  others-append n own (m ∷ monitors) = ground (arith, others-append n own monitors)

  create_monitor-others :
      (now : ℕ) (p : MonitorParams) (monitors : List AppMonitor)
      → p.user_id ≡ user
      → others user (create_monitor now p monitors).1 ≡ others user monitors
  unfolding create_monitor
  create_monitor-others now p monitors e = elim (Bool-cases (any (λ m. m.id == p.id) monitors)) [
    | inl t ↦ rw t refl
    | inr t ↦ rw t (others-append _ (rw e (str_eq_self user)) monitors)
  ]

  update_one-others :
      (p : AppMonitor → Bool) (f : AppMonitor → AppMonitor)
      → ((m : AppMonitor) → p m ≡ true → owned_by user m.user_id ≡ true)
      → ((m : AppMonitor) → (f m).user_id ≡ m.user_id)
      → (monitors : List AppMonitor)
      → others user (update_one p f monitors).1 ≡ others user monitors
  unfolding update_one
  update_one-others p f own keep monitors = elim (Option-cases (find p monitors)) [
    | inl e ↦ rw (e, update_one) refl
    | inr (m, e) ↦ rw (e, update_one) (others-set_where p f own keep monitors)
  ]

  update_monitor-others :
      (now : ℕ) (p : MonitorParams) (monitors : List AppMonitor)
      → p.user_id ≡ user
      → others user (update_monitor_by_user now p monitors).1 ≡ others user monitors
  unfolding update_monitor_by_user
  update_monitor-others now p monitors e =
      update_one-others _ _ (λ m h. subst (λ u. owned_by u m.user_id ≡ true) e (ground arith))
        (λ m. refl) monitors

  delete_monitor-others :
      (now : ℕ) (id : String) (monitors : List AppMonitor)
      → others user (delete_monitor_by_user now id user monitors) ≡ others user monitors
  unfolding delete_monitor_by_user is_users
  delete_monitor-others now id monitors =
      others-set_where (is_users id user) (λ m. record m { deleted_at = some now })
        (λ m h. ground arith) (λ m. refl) monitors

  module _ (rows : List AppMonitor) where
    -- The rows of the other users are those given.
    abbrev KeepsOthers : Database → Type 0
    KeepsOthers s = others user s.monitors ≡ rows

    statement-others :
        {A : Type 0} (q : Db A)
        → ((s : Database) → KeepsOthers s → KeepsOthers (q s).1)
        → (s : Database) → KeepsOthers s
        → KeepsOthers (statement q s).1
    statement-others q keep s h = statement_keeps KeepsOthers q (λ t fs k. k) keep s h

    with_warnings-others :
        (regions : List String) (r : Result Code AppMonitor) (s : Database)
        → KeepsOthers s
        → KeepsOthers (with_warnings regions r s).1
    with_warnings-others [] (ok m) s h = h
    with_warnings-others (region ∷ regions) (ok m) s h =
        statement-others health_query (λ t k. k) s h
    with_warnings-others regions (err e) s h = h

    stored-others :
        (parses : String → Bool) (regions : List String) (r : Result DbError AppMonitor)
        (s : Database)
        → KeepsOthers s
        → KeepsOthers (stored parses regions r s).1
    stored-others parses regions (ok m) s h =
        with_warnings-others regions (db_monitor_to_proto parses m) s h
    stored-others parses regions (err e) s h = h

    update_found-others :
        (clean : String → String) (parses : String → Bool) (msg : UpdateMonitorRequest)
        (r : Result DbError AppMonitor) (s : Database)
        → KeepsOthers s
        → KeepsOthers (update_found clean parses user msg r s).1
    unfolding update_params
    update_found-others clean parses msg (err e) s h = h
    update_found-others clean parses msg (ok existing) s h =
        let p = update_params clean user msg existing in
        stored-others parses p.regions (statement (update_query p) s).0
          (statement (update_query p) s).1
          (statement-others (update_query p)
            (λ t k. update_monitor-others t.clock p t.monitors refl ∙ k) s h)

    create_call-others :
        (clean : String → String) (parses : String → Bool) (msg : CreateMonitorRequest)
        (s : Database)
        → KeepsOthers s
        → KeepsOthers (create_monitor_call clean parses user msg s).1
    unfolding create_monitor_call create_params
    create_call-others clean parses msg s h =
        let p = create_params clean user msg in
        elim (Bool-cases (msg.id == "" || msg.url == "")) [
          | inl e ↦ rw e h
          | inr e ↦ rw e (
              stored-others parses p.regions (statement (create_query p) s).0
                (statement (create_query p) s).1
                (statement-others (create_query p)
                  (λ t k. create_monitor-others t.clock p t.monitors refl ∙ k) s h))
        ]

    update_call-others :
        (clean : String → String) (parses : String → Bool) (msg : UpdateMonitorRequest)
        (s : Database)
        → KeepsOthers s
        → KeepsOthers (update_monitor_call clean parses user msg s).1
    unfolding update_monitor_call
    update_call-others clean parses msg s h = elim (Bool-cases (msg.id == "")) [
      | inl e ↦ rw e h
      | inr e ↦ rw e (
          update_found-others clean parses msg (statement (by_user_query msg.id user) s).0
            (statement (by_user_query msg.id user) s).1
            (statement-others (by_user_query msg.id user) (λ t k. k) s h))
    ]

    delete_call-others :
        (id : String) (s : Database) → KeepsOthers s → KeepsOthers (delete_monitor_call user id s).1
    unfolding delete_monitor_call
    delete_call-others id s h = elim (Bool-cases (id == "")) [
      | inl e ↦ rw e h
      | inr e ↦ rw e (
          statement-others (delete_query id user)
            (λ t k. delete_monitor-others t.clock id t.monitors ∙ k) s h)
    ]

    call-others :
        (clean : String → String) (parses : String → Bool) (call : MonitorCall) (s : Database)
        → KeepsOthers s
        → KeepsOthers (after_call clean parses user call s)
    unfolding after_call
    call-others clean parses (create_call msg) s h = create_call-others clean parses msg s h
    call-others clean parses (update_call msg) s h = update_call-others clean parses msg s h
    call-others clean parses (delete_call id) s h = delete_call-others id s h

-- Whatever becomes of the statements on the way, a call of CreateMonitor, UpdateMonitor or DeleteMonitor
-- leaves the monitors that are not the calling user's as they are, in their order.
pub calls_keep_others :
    (clean : String → String) (parses : String → Bool) (user : String) (call : MonitorCall)
    (s : Database)
    → others user (after_call clean parses user call s).monitors ≡ others user s.monitors
calls_keep_others clean parses user call s =
    call-others user (others user s.monitors) clean parses call s refl
