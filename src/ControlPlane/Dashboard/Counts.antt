-- ===== src/ControlPlane/Dashboard/Counts.antt =====
-- What the counts of the overview (internal/app/control-plane/api/dashboard/service.go) count.
use mathlib.Core.List.{append-nil}
use openseer.Base.{
  ℕ, ◌+◌, String, ◌≡◌, refl, sym, ap, ◌∙◌, Bool, true, not, ◌&&◌, Option, none, some, List, [], ◌∷◌,
  ◌++◌, map, arith, is_none, All, length, filter, count_if, count_if-filter, count_if-split,
  count_if-true, All-of_forall, All-filter,
}
use openseer.Base.Dict.{lookup}
use openseer.ControlPlane.Dashboard.{
  MonitorStatus, DashboardOverview, result_map, monitor_status, is_failure, Tally, count_check,
  count_checks, difference, overview_of,
}
use openseer.Store.Monitors.{AppMonitor, is_true, owned_by, list_monitors_by_user}
use openseer.Store.Results.{ResultRow, get_latest_result_per_monitor}
use openseer.Base.Int.{pos}
use openseer.Base.Sort.{sort-All, count_if-sort}
use openseer.ControlPlane.Dashboard.Latest.{failing_in, failure_known}

abbrev ids_of : List MonitorStatus → List String
ids_of = map (λ c. c.monitor_id)

monitor_status_id : (m : AppMonitor) (r : Option ResultRow) → (monitor_status m r).monitor_id ≡ m.id
monitor_status_id m none = refl
monitor_status_id m (some r) = refl

ids-append :
    (cs : List MonitorStatus) (c : MonitorStatus) (ids : List String)
    → ids_of (cs ++ c ∷ []) ++ ids ≡ ids_of cs ++ c.monitor_id ∷ ids
ids-append [] c ids = refl
ids-append (d ∷ cs) c ids = ap (λ xs. d.monitor_id ∷ xs) (ids-append cs c ids)

module _ (map_of : List (String × ResultRow)) (user : String) where
  abbrev fails : AppMonitor → Bool
  fails m = is_failure (lookup m.id map_of) && is_true m.enabled

  abbrev IsOwned : AppMonitor → Type 0
  IsOwned m = owned_by user m.user_id ≡ true

  active-count_checks :
      (monitors : List AppMonitor) (t : Tally)
      → All IsOwned monitors
      → (count_checks map_of user monitors t).active
        ≡ t.active + count_if (λ m. is_true m.enabled) monitors
  unfolding count_checks count_check
  active-count_checks [] t h = omega arith
  active-count_checks (m ∷ monitors) t h =
      rw (active-count_checks monitors (count_check map_of user m t) h.1, h.0) (ground arith)

  failing-count_checks :
      (monitors : List AppMonitor) (t : Tally)
      → All IsOwned monitors
      → (count_checks map_of user monitors t).failing ≡ t.failing + count_if fails monitors
  unfolding count_checks count_check
  failing-count_checks [] t h = omega arith
  failing-count_checks (m ∷ monitors) t h =
      rw (failing-count_checks monitors (count_check map_of user m t) h.1, h.0) (ground arith)

  statuses-count_checks :
      (monitors : List AppMonitor) (t : Tally)
      → All IsOwned monitors
      → ids_of (count_checks map_of user monitors t).statuses
        ≡ ids_of t.statuses ++ map (λ m. m.id) monitors
  unfolding count_checks count_check
  statuses-count_checks [] t h = sym (append-nil (ids_of t.statuses))
  statuses-count_checks (m ∷ monitors) t h =
      rw
        (
          statuses-count_checks monitors (count_check map_of user m t) h.1,
          h.0,
          ids-append t.statuses (monitor_status m (lookup m.id map_of)) (map (λ m. m.id) monitors),
          monitor_status_id m (lookup m.id map_of),
        )
        refl

-- A monitor that the overview is about.
abbrev pub is_live : String → AppMonitor → Bool
is_live user m = owned_by user m.user_id && is_none m.deleted_at

unfoldable pub is_on : String → AppMonitor → Bool
is_on user m = is_live user m && is_true m.enabled

unfoldable pub is_failing : ℕ → List ResultRow → String → AppMonitor → Bool
unfolding is_on failing_in
is_failing now results user m =
    is_on user m && failing_in (get_latest_result_per_monitor now results) m

-- The overview counts the user's monitors that are not deleted: all of them, those on and off, and of
-- those that are on the failing and the others.
pub record Counts (now : ℕ) (user : String) (monitors : List AppMonitor) (results : List ResultRow)
    (o : DashboardOverview) : Type 0 where
  pub all : o.total_monitors ≡ pos (count_if (is_live user) monitors)
  pub on : o.enabled_monitors ≡ pos (count_if (is_on user) monitors)
  pub off :
      o.disabled_monitors ≡ pos (count_if (λ m. is_live user m && not (is_true m.enabled)) monitors)
  pub failing : o.unhealthy_monitors ≡ pos (count_if (is_failing now results user) monitors)
  pub others :
      o.healthy_monitors
      ≡ pos (
          count_if
            (λ m. is_on user m && not (failing_in (get_latest_result_per_monitor now results) m))
            monitors)
  pub listed :
      map (λ c. c.monitor_id) o.recent_failures
      ≡ map (λ m. m.id) (list_monitors_by_user user monitors)

count_if-ext :
    (p q : AppMonitor → Bool)
    → ((m : AppMonitor) → p m ≡ q m)
    → (monitors : List AppMonitor) → count_if p monitors ≡ count_if q monitors
count_if-ext p q h [] = refl
count_if-ext p q h (m ∷ monitors) = ground (arith, h m, count_if-ext p q h monitors)

listed-IsOwned :
    (user : String) (monitors : List AppMonitor)
    → All (IsOwned [] user) (list_monitors_by_user user monitors)
unfolding list_monitors_by_user
listed-IsOwned user monitors = sort-All _ (IsOwned [] user) _ (
    All-filter (IsOwned [] user) (is_live user) monitors
      (All-of_forall _ (λ m h. ground arith) monitors))

-- What a test counts among the listed monitors, it counts among the live ones of the table.
count_listed :
    (p : AppMonitor → Bool) (user : String) (monitors : List AppMonitor)
    → count_if p (list_monitors_by_user user monitors)
      ≡ count_if (λ m. is_live user m && p m) monitors
unfolding list_monitors_by_user
count_listed p user monitors =
    count_if-sort _ p (filter (is_live user) monitors) ∙ count_if-filter p (is_live user) monitors

-- int64(a - b) of a part b of a.
difference_split : (a b c : ℕ) → a ≡ b + c → difference a b ≡ pos c
difference_split a b c h = ground arith

all_counted :
    (user : String) (monitors : List AppMonitor)
    → length (list_monitors_by_user user monitors) ≡ count_if (is_live user) monitors
all_counted user monitors =
    sym (count_if-true (list_monitors_by_user user monitors))
    ∙ (count_listed (λ m. true) user monitors
        ∙ count_if-ext (λ m. is_live user m && true) (is_live user) (λ m. ground arith) monitors)

abbrev no_tally : Tally
no_tally = record { active = 0; failing = 0; statuses = [] }

module _ (now : ℕ) (user : String) (monitors : List AppMonitor) (results : List ResultRow) where
  abbrev latest : List ResultRow
  latest = get_latest_result_per_monitor now results

  abbrev tally : Tally
  tally = count_checks (result_map latest []) user (list_monitors_by_user user monitors) no_tally

  on_counted : tally.active ≡ count_if (is_on user) monitors
  unfolding is_on
  on_counted = omega (
    arith,
    active-count_checks (result_map latest []) user (list_monitors_by_user user monitors) no_tally
        (listed-IsOwned user monitors),
    count_listed (λ m. is_true m.enabled) user monitors,
  )

  failing_counted : tally.failing ≡ count_if (is_failing now results user) monitors
  unfolding is_failing
  failing_counted = omega (
    arith,
    failing-count_checks (result_map latest []) user (list_monitors_by_user user monitors) no_tally
        (listed-IsOwned user monitors),
    count_listed (fails (result_map latest []) user) user monitors,
    count_if-ext (λ m. is_live user m && fails (result_map latest []) user m)
        (λ m. (is_live user m && is_true m.enabled) && failing_in latest m)
        (λ m. rw (failure_known now results m) (ground arith)) monitors,
  )

  pub overview-Counts :
      Counts now user monitors results
        (overview_of (list_monitors_by_user user monitors) latest user)
  unfolding overview_of is_on is_failing
  overview-Counts = record {
    all = ap pos (all_counted user monitors);
    on = ap pos on_counted;
    off = difference_split _ _ _ (
        omega (
          arith,
          all_counted user monitors,
          count_if-split (is_live user) (λ m. is_true m.enabled) monitors,
          on_counted,
        ));
    failing = ap pos failing_counted;
    others = difference_split _ _ _ (
        omega (
          arith,
          count_if-split (is_on user) (failing_in latest) monitors,
          on_counted,
          failing_counted,
        ));
    listed =
        statuses-count_checks (result_map latest []) user _ no_tally (listed-IsOwned user monitors);
  }
