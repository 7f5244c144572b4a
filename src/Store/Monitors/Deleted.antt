-- ===== src/Store/Monitors/Deleted.antt =====
-- Which statements of internal/app/control-plane/store/sqlc/monitors.sql.go still find a monitor that its user
-- deleted with DeleteMonitorByUser. GetMonitorIncludingDeleted is meant to, and does.
use openseer.Base.{
  ℕ, String, ◌≡◌, refl, ap, subst, inl, inr, Bool, true, false, not, ◌&&◌, Option, none, some, List,
  [], ◌∷◌, arith, Bool-cases, Option-cases, All, filter, find, string_eq, nat_eq, ◌==◌, ok, err,
}
use openseer.Base.Sort.{sort-All}
use openseer.Store.Errors.{no_rows}
use openseer.Store.Monitors.{
  AppMonitor, owned_by, is_users, get_monitor_by_user, list_monitors_by_user, is_due,
  list_due_monitors, delete_monitor_by_user,
}
use openseer.Store.Monitors.Queries.{
  is_present, count_active_monitors_by_id, get_monitor, list_all_monitors, list_enabled_monitors,
  list_enabled_monitors_by_user,
}
use openseer.Store.Db.{value_or}

-- The user's monitor of the id.
abbrev pub is_target : String → String → AppMonitor → Bool
is_target id user m = m.id == id && owned_by user m.user_id

abbrev pub IsUnseen : String → String → List AppMonitor → Type 0
IsUnseen id user = All (λ m. is_target id user m ≡ false)

abbrev monitor_or : AppMonitor → Option AppMonitor → AppMonitor
monitor_or d none = d
monitor_or d (some m) = m

module _ (now : ℕ) (id user : String) where
  abbrev mark : AppMonitor → AppMonitor
  mark m = record m { deleted_at = some now }

  visible :
      (m : AppMonitor)
      → is_users id user m ≡ false
      → is_present m ≡ true
      → is_target id user m ≡ false
  unfolding is_users
  visible m e t = ground arith

  hidden_after :
      (q : AppMonitor → Bool)
      → ((m : AppMonitor) → q m ≡ true → is_present m ≡ true)
      → (monitors : List AppMonitor)
      → IsUnseen id user (filter q (delete_monitor_by_user now id user monitors))
  unfolding delete_monitor_by_user is_users
  hidden_after q present [] = tt
  hidden_after q present (m ∷ monitors) = elim (Bool-cases (is_users id user m)) [
    | inl e ↦ elim (Bool-cases (q (mark m))) [
      | inl t ↦ let p = present (mark m) t in absurd (ground arith)
      | inr t ↦ rw (e, t) (hidden_after q present monitors)
    ]
    | inr e ↦ elim (Bool-cases (q m)) [
      | inl t ↦ rw (e, t) (visible m e (present m t), hidden_after q present monitors)
      | inr t ↦ rw (e, t) (hidden_after q present monitors)
    ]
  ]

  find-none :
      (p q : AppMonitor → Bool) (monitors : List AppMonitor)
      → ((m : AppMonitor) → q m ≡ true → p m ≡ true)
      → All (λ m. p m ≡ false) (filter q monitors)
      → find q monitors ≡ none
  find-none p q [] imp h = refl
  find-none p q (m ∷ monitors) imp h = elim (Bool-cases (q m)) [
    | inl e ↦ let h' = rw e at h in let t = imp m e in absurd (ground arith)
    | inr e ↦ rw e (find-none p q monitors imp (rw e at h))
  ]

  All-found :
      (P : AppMonitor → Type 0) (q : AppMonitor → Bool) (xs : List AppMonitor) {a : AppMonitor}
      → All P (filter q xs)
      → find q xs ≡ some a
      → P a
  All-found P q [] h e = absurd (ground arith)
  All-found P q (x ∷ xs) {a} h e = elim (Bool-cases (q x)) [
    | inl t ↦
        let first : some x ≡ some a = rw t at e in subst P (ap (monitor_or x) first) (rw t at h).0
    | inr t ↦ All-found P q xs (rw t at h) (rw t at e)
  ]

  uncounted :
      (monitors : List AppMonitor)
      → count_active_monitors_by_id id (delete_monitor_by_user now id user monitors)
        ≡ count_active_monitors_by_id id
            (filter (λ m. not (is_target id user m)) (delete_monitor_by_user now id user monitors))
  unfolding count_active_monitors_by_id delete_monitor_by_user is_users
  uncounted [] = refl
  uncounted (m ∷ monitors) = elim (Bool-cases (is_users id user m)) [
    | inl e ↦ rw e (ground (arith, uncounted monitors))
    | inr e ↦ elim (Bool-cases (is_target id user m)) [
      | inl t ↦
          let gone : is_present m ≡ false = ground arith in rw (e, t, gone) (uncounted monitors)
      | inr t ↦ rw (e, t) (ground (arith, uncounted monitors))
    ]
  ]

  -- GetMonitor and the count take no user: they find no row of this id that is the user's.
  not_got :
      (monitors : List AppMonitor) {m : AppMonitor}
      → get_monitor id (delete_monitor_by_user now id user monitors) ≡ ok m
      → is_target id user m ≡ false
  unfolding get_monitor
  not_got monitors {m} h =
      let after = delete_monitor_by_user now id user monitors in
      let q : AppMonitor → Bool = λ x. x.id == id && is_present x in
      elim (Option-cases (find q after)) [
        | inl e ↦ let h' = rw (e, get_monitor) at h in absurd (ground arith)
        | inr (x, e) ↦
            let same : x ≡ m = ap (value_or x) (rw (e, get_monitor) at h) in
            subst (λ y. is_target id user y ≡ false) same
              (All-found (λ y. is_target id user y ≡ false) q after
                (hidden_after q (λ y k. ground arith) monitors) e)
      ]

  -- After a user has deleted a monitor: GetMonitorByUser finds no row for its id and that user; a row
  -- that GetMonitor finds by the id, or that CountActiveMonitorsByID counts, is not that user's; and it is in
  -- none of the lists: of the user's monitors, of those that are enabled, of all, and of those that are due.
  -- GetMonitorIncludingDeleted, which finds it, is left out.
  pub deleted-IsUnseen :
      (text_before : String → String → Bool) (t : ℕ) (locked : String → Bool)
      (monitors : List AppMonitor)
      → let after = delete_monitor_by_user now id user monitors in
        (get_monitor_by_user id user after ≡ err no_rows)
        × ((m : AppMonitor) → get_monitor id after ≡ ok m → is_target id user m ≡ false)
        × (count_active_monitors_by_id id after
            ≡ count_active_monitors_by_id id (filter (λ m. not (is_target id user m)) after))
        × IsUnseen id user (list_monitors_by_user user after)
        × IsUnseen id user (list_enabled_monitors_by_user user after)
        × IsUnseen id user (list_enabled_monitors text_before after)
        × IsUnseen id user (list_all_monitors text_before after)
        × IsUnseen id user (list_due_monitors t locked after)
  unfolding get_monitor_by_user list_monitors_by_user list_enabled_monitors_by_user
      list_enabled_monitors list_all_monitors list_due_monitors is_due is_users
  deleted-IsUnseen text_before t locked monitors = (
    rw
        (
          find-none (is_target id user) (is_users id user)
              (delete_monitor_by_user now id user monitors) (λ m e. ground arith)
              (hidden_after (is_users id user) (λ m e. ground arith) monitors),
          get_monitor_by_user,
        )
        refl,
    λ m h. not_got monitors h,
    uncounted monitors,
    sort-All _ _ _ (hidden_after _ (λ m e. ground arith) monitors),
    sort-All _ _ _ (hidden_after _ (λ m e. ground arith) monitors),
    sort-All _ _ _ (hidden_after _ (λ m e. ground arith) monitors),
    sort-All _ _ _ (hidden_after _ (λ m e. ground arith) monitors),
    sort-All _ _ _ (hidden_after _ (λ m e. ground arith) monitors),
  )
