-- ===== src/ControlPlane/Dashboard/Latest.antt =====
-- The map of the latest results in internal/app/control-plane/api/dashboard/service.go.
use openseer.Base.{
  ℕ, String, ◌≡◌, refl, ◌∙◌, subst, inl, inr, Bool, false, not, ◌&&◌, List, [], ◌∷◌, arith,
  if◌then◌else◌, Bool-cases, filter, any, string_eq, nat_eq, ◌==◌, str_eq_iff,
}
use openseer.Base.Dict.{lookup, insert, lookup-insert}
use openseer.ControlPlane.Dashboard.{result_map, is_failure}
use openseer.Store.Monitors.{AppMonitor}
use openseer.Store.Results.{ResultRow, distinct_on, get_latest_result_per_monitor}

abbrev same_monitor : String → ResultRow → Bool
same_monitor id r = r.monitor_id == id

-- A row of the monitor whose status is not OK.
unfoldable pub failing_in : List ResultRow → AppMonitor → Bool
failing_in latest m = any (λ r. r.monitor_id == m.id && not (r.status == "OK")) latest

-- No two rows of one monitor.
abbrev IsDistinct : List ResultRow → Type 0
IsDistinct [] = Unit
IsDistinct (r ∷ rows) = (any (same_monitor r.monitor_id) rows ≡ false) × IsDistinct rows

lookup-result_map :
    (id : String) (rows : List ResultRow) (acc : List (String × ResultRow))
    → any (same_monitor id) rows ≡ false
    → lookup id (result_map rows acc) ≡ lookup id acc
unfolding result_map
lookup-result_map id [] acc h = refl
lookup-result_map id (r ∷ rows) acc h =
    rw
      (
        lookup-result_map id rows (insert r.monitor_id r acc) (ground arith),
        lookup-insert r.monitor_id id r acc,
      )
      (ground arith)

any_failing :
    (id : String) (rows : List ResultRow)
    → any (same_monitor id) rows ≡ false
    → any (λ r. r.monitor_id == id && not (r.status == "OK")) rows ≡ false
any_failing id [] h = refl
any_failing id (r ∷ rows) h = ground (arith, any_failing id rows)

failure-result_map :
    (id : String) (rows : List ResultRow) (acc : List (String × ResultRow))
    → IsDistinct rows
    → is_failure (lookup id (result_map rows acc)) ≡ (
        if any (same_monitor id) rows
        then any (λ r. r.monitor_id == id && not (r.status == "OK")) rows
        else is_failure (lookup id acc))
unfolding result_map
failure-result_map id [] acc h = refl
failure-result_map id (r ∷ rows) acc h = elim (Bool-cases (r.monitor_id == id)) [
  | inl e ↦
      let fresh : any (same_monitor id) rows ≡ false =
        subst (λ x. any (same_monitor x) rows ≡ false) ((str_eq_iff r.monitor_id id).0 e) h.0 in
      rw
        (
          lookup-result_map id rows (insert r.monitor_id r acc) fresh,
          lookup-insert r.monitor_id id r acc,
          e,
          any_failing id rows fresh,
        )
        (ground arith)
  | inr e ↦
      rw
        (
          failure-result_map id rows (insert r.monitor_id r acc) h.1,
          lookup-insert r.monitor_id id r acc,
          e,
        )
        refl
]

any-filter :
    (p q : ResultRow → Bool) (rows : List ResultRow)
    → any p rows ≡ false
    → any p (filter q rows) ≡ false
any-filter p q [] h = refl
any-filter p q (r ∷ rows) h = ground (arith, any-filter p q rows)

IsDistinct-filter :
    (q : ResultRow → Bool) (rows : List ResultRow) → IsDistinct rows → IsDistinct (filter q rows)
IsDistinct-filter q [] h = tt
IsDistinct-filter q (r ∷ rows) h = elim (Bool-cases (q r)) [
  | inl e ↦ rw e (any-filter (same_monitor r.monitor_id) q rows h.0, IsDistinct-filter q rows h.1)
  | inr e ↦ rw e (IsDistinct-filter q rows h.1)
]

none_left :
    (id : String) (rows : List ResultRow)
    → any (same_monitor id) (filter (λ q. not (q.monitor_id == id)) rows) ≡ false
none_left id [] = refl
none_left id (r ∷ rows) = ground (arith, none_left id rows)

distinct_on-IsDistinct : (rows : List ResultRow) → IsDistinct (distinct_on rows)
unfolding distinct_on
distinct_on-IsDistinct [] = tt
distinct_on-IsDistinct (r ∷ rows) = (
  none_left r.monitor_id (distinct_on rows),
  IsDistinct-filter (λ q. not (q.monitor_id == r.monitor_id)) (distinct_on rows)
      (distinct_on-IsDistinct rows),
)

any_or_any :
    (id : String) (rows : List ResultRow)
    → (if any (same_monitor id) rows
        then any (λ r. r.monitor_id == id && not (r.status == "OK")) rows
        else false)
      ≡ any (λ r. r.monitor_id == id && not (r.status == "OK")) rows
any_or_any id rows = elim (Bool-cases (any (same_monitor id) rows)) [
  | inl e ↦ rw e refl
  | inr e ↦ rw (e, any_failing id rows e) refl
]

-- The map of the handler reads as the rows do.
pub failure_known :
    (now : ℕ) (results : List ResultRow) (m : AppMonitor)
    → is_failure (lookup m.id (result_map (get_latest_result_per_monitor now results) []))
      ≡ failing_in (get_latest_result_per_monitor now results) m
unfolding get_latest_result_per_monitor failing_in lookup
failure_known now results m =
    failure-result_map m.id _ [] (distinct_on-IsDistinct _) ∙ any_or_any m.id _
