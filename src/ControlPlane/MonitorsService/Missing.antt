-- ===== src/ControlPlane/MonitorsService/Missing.antt =====
-- When the calls of internal/app/control-plane/api/monitors/service.go answer that there is no monitor.
use openseer.Base.{
  ℕ, String, ◌≡◌, refl, inl, inr, Bool, true, false, ◌&&◌, Option, none, List, [], ◌∷◌, arith,
  Bool-cases, Option-cases, any, find, string_eq, nat_eq, ◌==◌, Result, ok, err, Result-cases,
}
use openseer.ControlPlane.MonitorsService.{
  UpdateMonitorRequest, reads, db_monitor_to_proto, with_warnings, stored, lookup_code,
  by_user_query, found, get_monitor_call, update_params, update_query, update_found,
  update_monitor_call,
}
use openseer.ControlPlane.WorkerService.{
  Code, unauthenticated, not_found, invalid_argument, internal,
}
use openseer.Store.Db.{Fault, served, refused, lost, Database, through, statement}
use openseer.Store.Errors.{DbError, no_rows, constraint, unavailable}
use openseer.Store.Monitors.{AppMonitor, is_users, get_monitor_by_user}
use openseer.Base.Int.{ℤ}
use openseer.ControlPlane.MonitorsService.Listing.{
  results_query, results_of, results_for, get_monitor_results,
}
use openseer.ControlPlane.MonitorsService.Uptime.{
  fetch_uptime_24h, fetch_uptime_7d, fetch_uptime_30d, uptime_answer, uptime_in, uptime_for,
  get_monitor_uptime, timeline_24h_query, fetch_timeline_7d, fetch_timeline_30d, timeline_answer,
  timeline_in, timeline_for, get_monitor_uptime_timeline,
}
use openseer.Store.Results.{ResultRow}
use openseer.Store.Results.Uptime.{UptimeRow, TimelineRow}

abbrev pub is_not_found {ℓ} : {A : Type ℓ} → Result Code A → Bool
is_not_found (ok a) = false
is_not_found (err not_found) = true
is_not_found (err unauthenticated) = false
is_not_found (err invalid_argument) = false
is_not_found (err internal) = false

-- The error of a row that is not there.
abbrev is_no_rows {ℓ} : {A : Type ℓ} → Result DbError A → Bool
is_no_rows (ok a) = false
is_no_rows (err no_rows) = true
is_no_rows (err constraint) = false
is_no_rows (err unavailable) = false

any-find-none {ℓ} : {A : Type ℓ} (p : A → Bool) (xs : List A) → find p xs ≡ none → any p xs ≡ false
any-find-none p [] h = refl
any-find-none p (x ∷ xs) h = ground (arith, any-find-none p xs)

module _ (user id : String) where
  abbrev pub IsAbsent : Database → Type 0
  IsAbsent s = any (is_users id user) s.monitors ≡ false

  row_absent :
      (monitors : List AppMonitor)
      → is_no_rows (get_monitor_by_user id user monitors) ≡ true
      → any (is_users id user) monitors ≡ false
  unfolding get_monitor_by_user
  row_absent monitors h = elim (Option-cases (find (is_users id user) monitors)) [
    | inl e ↦ any-find-none (is_users id user) monitors e
    | inr (m, e) ↦ let h' = rw (e, get_monitor_by_user) at h in absurd (ground arith)
  ]

  through-IsAbsent :
      (fs : List Fault) (s : Database)
      → is_no_rows (through fs (by_user_query id user) s).0 ≡ true
      → IsAbsent s
  unfolding through
  through-IsAbsent [] s h = row_absent s.monitors h
  through-IsAbsent (served ∷ fs) s h = row_absent s.monitors h
  through-IsAbsent (refused ∷ fs) s h = absurd (ground arith)
  through-IsAbsent (lost ∷ fs) s h = absurd (ground arith)

  statement-IsAbsent :
      (s : Database) → is_no_rows (statement (by_user_query id user) s).0 ≡ true → IsAbsent s
  unfolding statement
  statement-IsAbsent s h = through-IsAbsent s.faults s h

  code_no_rows :
      (A : Type 0) (e : DbError)
      → is_not_found {A = A} (err (lookup_code e)) ≡ true
      → is_no_rows {A = AppMonitor} (err e) ≡ true
  code_no_rows A no_rows h = refl
  code_no_rows A constraint h = absurd (ground arith)
  code_no_rows A unavailable h = absurd (ground arith)

  -- A call that goes on with the monitor, and then never answers that it is not found.
  answers_missing :
      {A : Type 0} (go_on : Result DbError AppMonitor → Database → Result Code A × Database)
      → ((m : AppMonitor) (d : Database) → is_not_found (go_on (ok m) d).0 ≡ false)
      → ((e : DbError) (d : Database) → (go_on (err e) d).0 ≡ err (lookup_code e))
      → (s : Database)
      → is_not_found
          (go_on (statement (by_user_query id user) s).0 (statement (by_user_query id user) s).1).0
        ≡ true
      → IsAbsent s
  answers_missing {A} go_on found_ok found_err s h =
      elim (Result-cases (statement (by_user_query id user) s).0) [
        | inl (m, e) ↦
            let h' = rw e at h in
            let k = found_ok m (statement (by_user_query id user) s).1 in absurd (ground arith)
        | inr (d, e) ↦
            let h' = rw (e, found_err d (statement (by_user_query id user) s).1) at h in
            statement-IsAbsent s (rw e (code_no_rows A d h'))
      ]

  proto_known :
      (parses : String → Bool) (m : AppMonitor)
      → is_not_found (db_monitor_to_proto parses m) ≡ false
  unfolding db_monitor_to_proto
  proto_known parses m = elim (Bool-cases (reads parses m.headers && reads parses m.assertions)) [
    | inl e ↦ rw e refl
    | inr e ↦ rw e refl
  ]

  warned_known :
      (regions : List String) (r : Result Code AppMonitor) (d : Database)
      → is_not_found r ≡ false
      → is_not_found (with_warnings regions r d).0 ≡ false
  warned_known regions (err not_found) d h = h
  warned_known regions (err unauthenticated) d h = refl
  warned_known regions (err invalid_argument) d h = refl
  warned_known regions (err internal) d h = refl
  warned_known [] (ok m) d h = refl
  warned_known (x ∷ regions) (ok m) d h = refl

  stored_known :
      (parses : String → Bool) (regions : List String) (r : Result DbError AppMonitor)
      (d : Database)
      → is_not_found (stored parses regions r d).0 ≡ false
  stored_known parses regions (err e) d = refl
  stored_known parses regions (ok m) d =
      warned_known regions (db_monitor_to_proto parses m) d (proto_known parses m)

  update_known :
      (clean : String → String) (parses : String → Bool) (msg : UpdateMonitorRequest)
      (m : AppMonitor) (d : Database)
      → is_not_found (update_found clean parses user msg (ok m) d).0 ≡ false
  update_known clean parses msg m d =
      let p = update_params clean user msg m in
      let made = statement (update_query p) d in stored_known parses p.regions made.0 made.1

  results_known : (r : Result DbError (List ResultRow)) → is_not_found (results_of r) ≡ false
  results_known (ok rows) = refl
  results_known (err e) = refl

  module _ (percent : ℕ → ℕ → ℕ) where
    uptime_known : (r : Result DbError UptimeRow) → is_not_found (uptime_answer percent r) ≡ false
    uptime_known (ok row) = refl
    uptime_known (err e) = refl

    range_known :
        (range : String) (d : Database) → is_not_found (uptime_in percent range id d).0 ≡ false
    range_known range d = elim (Bool-cases (range == "24h")) [
      | inl a ↦ rw a (uptime_known (fetch_uptime_24h percent id d).0)
      | inr a ↦ elim (Bool-cases (range == "7d")) [
        | inl b ↦ rw (a, b) (uptime_known (fetch_uptime_7d percent id d).0)
        | inr b ↦ elim (Bool-cases (range == "30d")) [
          | inl c ↦ rw (a, b, c) (uptime_known (fetch_uptime_30d percent id d).0)
          | inr c ↦ rw (a, b, c) refl
        ]
      ]
    ]

    timeline_known :
        (r : Result DbError (List TimelineRow)) → is_not_found (timeline_answer percent r) ≡ false
    timeline_known (ok rows) = refl
    timeline_known (err e) = refl

    points_known :
        (as_int : ℕ → ℕ → Option ℕ) (range : String) (d : Database)
        → is_not_found (timeline_in percent as_int range id d).0 ≡ false
    points_known as_int range d = elim (Bool-cases (range == "24h")) [
      | inl a ↦ rw a (timeline_known (statement (timeline_24h_query percent id) d).0)
      | inr a ↦ elim (Bool-cases (range == "7d")) [
        | inl b ↦ rw (a, b) (timeline_known (fetch_timeline_7d percent id d).0)
        | inr b ↦ elim (Bool-cases (range == "30d")) [
          | inl c ↦ rw (a, b, c) (timeline_known (fetch_timeline_30d percent as_int id d).0)
          | inr c ↦ rw (a, b, c) refl
        ]
      ]
    ]

    -- Whatever becomes of the statements: when one of the calls that look a monitor up first answers that it
    -- is not found (GetMonitor, UpdateMonitor, GetMonitorResults, GetMonitorUptime and its timeline), the
    -- table has no monitor of that id of the calling user that is not deleted. A lost connection is never
    -- reported as a missing monitor.
    pub not_found-IsAbsent :
        (clean : String → String) (parses : String → Bool) (as_int : ℕ → ℕ → Option ℕ)
        (msg : UpdateMonitorRequest) (limit : ℤ) (range : String) (s : Database)
        → (is_not_found (get_monitor_call parses user id s).0 ≡ true → IsAbsent s)
          × (is_not_found (update_monitor_call clean parses user (record msg { id = id }) s).0
                ≡ true
              → IsAbsent s)
          × (is_not_found (get_monitor_results user id limit s).0 ≡ true → IsAbsent s)
          × (is_not_found (get_monitor_uptime percent user id range s).0 ≡ true → IsAbsent s)
          × (is_not_found (get_monitor_uptime_timeline percent as_int user id range s).0 ≡ true
              → IsAbsent s)
    unfolding get_monitor_call update_monitor_call get_monitor_results get_monitor_uptime
        get_monitor_uptime_timeline
    not_found-IsAbsent clean parses as_int msg limit range s = (
      λ h. elim (Bool-cases (id == "")) [
        | inl e ↦ let h' = rw e at h in absurd (ground arith)
        | inr e ↦
            answers_missing (λ r d. (found parses r, d)) (λ m d. proto_known parses m) (λ x d. refl)
              s (rw e at h)
      ],
      λ h. elim (Bool-cases (id == "")) [
        | inl e ↦ let h' = rw e at h in absurd (ground arith)
        | inr e ↦
            answers_missing (update_found clean parses user (record msg { id = id }))
              (λ m d. update_known clean parses (record msg { id = id }) m d) (λ x d. refl) s
              (rw e at h)
      ],
      λ h. elim (Bool-cases (id == "")) [
        | inl e ↦ let h' = rw e at h in absurd (ground arith)
        | inr e ↦
            answers_missing (results_for id limit)
              (λ m d. results_known (statement (results_query id limit) d).0) (λ x d. refl) s
              (rw e at h)
      ],
      λ h.
          answers_missing (uptime_for percent range id) (λ m d. range_known range d) (λ x d. refl) s
            h,
      λ h.
          answers_missing (timeline_for percent as_int range id)
            (λ m d. points_known as_int range d) (λ x d. refl) s h,
    )
