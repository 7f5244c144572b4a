-- ===== src/Store/Monitors/Queries.antt =====
-- The statements of internal/app/control-plane/store/sqlc/monitors.sql.go that are not bound to a user.
-- `text_before` stands for the order of texts in the database's collation.
use openseer.Base.{
  ℕ, String, Bool, ◌&&◌, Option, none, some, List, ltb, is_none, filter, count_if, find, string_eq,
  nat_eq, ◌==◌, Result, ok, err,
}
use openseer.Base.Sort.{sort}
use openseer.Store.Errors.{DbError, no_rows}
use openseer.Store.Monitors.{AppMonitor, is_true, owned_by, set_where, update_one, MonitorParams}

abbrev pub is_present : AppMonitor → Bool
is_present m = is_none m.deleted_at

-- The view app.active_monitors has the rows that are not deleted.
unfoldable pub count_active_monitors_by_id : String → List AppMonitor → ℕ
count_active_monitors_by_id id = count_if (λ m. is_present m && m.id == id)

unfoldable pub delete_monitor : ℕ → String → List AppMonitor → List AppMonitor
delete_monitor now id =
    set_where (λ m. m.id == id && is_present m) (λ m. record m { deleted_at = some now })

abbrev pub or_no_rows : Option AppMonitor → Result DbError AppMonitor
or_no_rows none = err no_rows
or_no_rows (some m) = ok m

unfoldable pub get_monitor : String → List AppMonitor → Result DbError AppMonitor
get_monitor id monitors = or_no_rows (find (λ m. m.id == id && is_present m) monitors)

unfoldable pub get_monitor_including_deleted : String → List AppMonitor → Result DbError AppMonitor
get_monitor_including_deleted id monitors = or_no_rows (find (λ m. m.id == id) monitors)

unfoldable pub list_all_monitors : (String → String → Bool) → List AppMonitor → List AppMonitor
list_all_monitors text_before monitors =
    sort (λ m n. text_before m.id n.id) (filter is_present monitors)

unfoldable pub list_enabled_monitors : (String → String → Bool) → List AppMonitor → List AppMonitor
list_enabled_monitors text_before monitors =
    sort (λ m n. text_before m.id n.id) (filter (λ m. is_true m.enabled && is_present m) monitors)

unfoldable pub list_enabled_monitors_by_user : String → List AppMonitor → List AppMonitor
list_enabled_monitors_by_user user monitors =
    sort (λ m n. ltb n.created_at m.created_at)
      (filter (λ m. is_true m.enabled && owned_by user m.user_id && is_present m) monitors)

-- `WHERE id = $1`, so a deleted monitor is changed too; the user of the parameters is not read.
unfoldable pub update_monitor :
    ℕ → MonitorParams → List AppMonitor → Result DbError AppMonitor × List AppMonitor
unfolding update_one
update_monitor now p =
    update_one (λ m. m.id == p.id)
      (λ m. record m {
        name = p.name;
        url = p.url;
        interval_ms = p.interval_ms;
        timeout_ms = p.timeout_ms;
        regions = p.regions;
        jitter_seed = p.jitter_seed;
        rate_limit_key = p.rate_limit_key;
        method = p.method;
        headers = p.headers;
        assertions = p.assertions;
        enabled = p.enabled;
        updated_at = now;
      })
