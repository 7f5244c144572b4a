-- ===== src/ControlPlane/Dashboard/Answer.antt =====
-- The answer of GetDashboardOverview (internal/app/control-plane/api/dashboard/service.go).
use openseer.Base.{
  String, ◌≡◌, refl, sym, ap, ◌∙◌, subst, inl, inr, some, List, arith, Result, ok, err,
  Result-cases,
}
use openseer.ControlPlane.Dashboard.{
  DashboardOverview, overview_of, checks_query, latest_query, with_latest, with_checks,
  get_dashboard_overview,
}
use openseer.ControlPlane.Dashboard.Counts.{Counts, overview-Counts}
use openseer.Store.Db.{Fault, Database, statement, statement_ok}
use openseer.Store.Errors.{DbError}
use openseer.Store.Monitors.{AppMonitor, list_monitors_by_user}
use openseer.Store.Results.{get_latest_result_per_monitor}
use openseer.Store.Sessions.{User}

abbrev overview_or {ℓ} :
    {E : Type ℓ} → DashboardOverview → Result E DashboardOverview → DashboardOverview
overview_or d (ok o) = o
overview_or d (err e) = d

abbrev list_or {ℓ κ} : {E : Type ℓ} {A : Type κ} → List A → Result E (List A) → List A
list_or d (ok xs) = xs
list_or d (err e) = d

latest_answer :
    (user : String) (checks : List AppMonitor) (s : Database) {o : DashboardOverview}
    → with_latest user checks (statement latest_query s).0 ≡ ok o
    → overview_of checks (get_latest_result_per_monitor s.clock s.results) user ≡ o
latest_answer user checks s {o} h = elim (Result-cases (statement latest_query s).0) [
  | inl (rows, e) ↦
      let (fs, answer, t) = statement_ok latest_query s e in
      let same : get_latest_result_per_monitor s.clock s.results ≡ rows =
        ap (list_or rows) answer in
      rw same (ap (overview_or (overview_of checks rows user)) (rw e at h))
  | inr (d, e) ↦ let h' = rw e at h in absurd (ground arith)
]

checks_answer :
    (user : String) (r : Result DbError (List AppMonitor)) (s t : Database) {o : DashboardOverview}
    → ((checks : List AppMonitor) → r ≡ ok checks → list_monitors_by_user user s.monitors ≡ checks)
    → (fs : List Fault) → t ≡ record s { faults = fs }
    → (with_checks user r t).0 ≡ ok o
    → Counts s.clock user s.monitors s.results o
checks_answer user (err e) s t seen fs same h = absurd (ground arith)
checks_answer user (ok checks) s t {o} seen fs same h =
    let h' = rw (same, sym (seen checks refl)) at h in
    subst (Counts s.clock user s.monitors s.results)
      (latest_answer user (list_monitors_by_user user s.monitors) (record s { faults = fs }) h')
      (overview-Counts s.clock user s.monitors s.results)

-- When GetDashboardOverview answers, whatever became of other statements, the numbers of the overview are
-- those of the calling user's monitors that are not deleted: all, on, off, and of those that are on the
-- ones whose latest result of the last five minutes is not OK, and the others; and it lists their ids in
-- the order of the query.
pub overview_counted :
    (user : User) (s : Database) {o : DashboardOverview}
    → (get_dashboard_overview (some user) s).0 ≡ ok o
    → Counts s.clock user.id s.monitors s.results o
unfolding get_dashboard_overview
overview_counted user s h = elim (Result-cases (statement (checks_query user.id) s).0) [
  | inl (checks, e) ↦
      let (fs, answer, t) = statement_ok (checks_query user.id) s e in
      checks_answer user.id (statement (checks_query user.id) s).0 s _
        (λ cs answered. ap (list_or checks) answer ∙ ap (list_or checks) (sym e ∙ answered)) fs t h
  | inr (d, e) ↦ let h' = rw e at h in absurd (ground arith)
]
