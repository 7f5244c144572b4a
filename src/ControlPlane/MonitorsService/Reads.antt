-- ===== src/ControlPlane/MonitorsService/Reads.antt =====
-- What GetMonitor of internal/app/control-plane/api/monitors/service.go answers with.
use openseer.Base.{
  String, ◌≡◌, refl, ap, subst, inl, inr, Bool, true, ◌&&◌, List, arith, Bool-cases, Option-cases,
  find, find_sound, string_eq, nat_eq, ◌==◌, Result, ok, err,
}
use openseer.ControlPlane.MonitorsService.{
  reads, db_monitor_to_proto, by_user_query, found, get_monitor_call,
}
use openseer.Store.Db.{Database, statement, statement_ok}
use openseer.Store.Errors.{DbError}
use openseer.Store.Monitors.{AppMonitor, is_users, get_monitor_by_user}

abbrev monitor_or {ℓ} : {E : Type ℓ} → AppMonitor → Result E AppMonitor → AppMonitor
monitor_or d (ok m) = m
monitor_or d (err e) = d

proto_same :
    (parses : String → Bool) (a m : AppMonitor) → db_monitor_to_proto parses a ≡ ok m → a ≡ m
unfolding db_monitor_to_proto
proto_same parses a m h = elim (Bool-cases (reads parses a.headers && reads parses a.assertions)) [
  | inl e ↦ ap (monitor_or a) (rw e at h)
  | inr e ↦ let h' = rw e at h in absurd (ground arith)
]

found_row :
    (id user : String) (monitors : List AppMonitor) {a : AppMonitor}
    → get_monitor_by_user id user monitors ≡ ok a
    → is_users id user a ≡ true
unfolding get_monitor_by_user
found_row id user monitors {a} h = elim (Option-cases (find (is_users id user) monitors)) [
  | inl e ↦ let h' = rw (e, get_monitor_by_user) at h in absurd (ground arith)
  | inr (x, e) ↦
      let same : x ≡ a = ap (monitor_or x) (rw (e, get_monitor_by_user) at h) in
      subst (λ y. is_users id user y ≡ true) same (find_sound (is_users id user) monitors e)
]

found_owned :
    (parses : String → Bool) (user id : String) (r : Result DbError AppMonitor) {m : AppMonitor}
    → ((a : AppMonitor) → r ≡ ok a → is_users id user a ≡ true)
    → found parses r ≡ ok m
    → is_users id user m ≡ true
found_owned parses user id (ok a) {m} own h =
    subst (λ y. is_users id user y ≡ true) (proto_same parses a m h) (own a refl)
found_owned parses user id (err e) own h = absurd (ground arith)

-- Whatever becomes of the query: a monitor in the answer of GetMonitor has the id that was asked for,
-- is the calling user's and is not deleted.
pub get_monitor_owned :
    (parses : String → Bool) (user id : String) (s : Database) {m : AppMonitor}
    → (get_monitor_call parses user id s).0 ≡ ok m
    → is_users id user m ≡ true
unfolding get_monitor_call
get_monitor_owned parses user id s h = elim (Bool-cases (id == "")) [
  | inl e ↦ let h' = rw e at h in absurd (ground arith)
  | inr e ↦
      found_owned parses user id (statement (by_user_query id user) s).0
        (λ a answered.
          let (fs, row, t) = statement_ok (by_user_query id user) s answered in
          found_row id user s.monitors row)
        (rw e at h)
]
