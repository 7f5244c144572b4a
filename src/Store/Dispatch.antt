-- ===== src/Store/Dispatch.antt =====
-- LeaseJobsWithMonitorData of internal/app/control-plane/store/sqlc/jobs.sql.go: the lease of
-- LeaseJobsWithFallback, joined with the monitors that are not deleted.
use openseer.Base.{
  ℕ, String, Bool, ◌&&◌, Option, none, some, List, [], ◌∷◌, is_none, find, ◌==◌, nat_eq, string_eq,
}
use openseer.Base.Int.{ℤ}
use openseer.Store.Jobs.{AppJob, LeaseJobsParams, lease_jobs_with_fallback}
use openseer.Store.Monitors.{AppMonitor}

pub record LeasedRow : Type 0 where
  pub job : AppJob
  pub url : String
  pub method : String
  pub timeout_ms : ℤ
  pub interval_ms : ℤ
  pub headers : Option String
  pub regions : List String

abbrev pub leased_row : AppJob → AppMonitor → LeasedRow
leased_row j m = record {
  job = j;
  url = m.url;
  method = m.method;
  timeout_ms = m.timeout_ms;
  interval_ms = m.interval_ms;
  headers = m.headers;
  regions = m.regions;
}

-- JOIN app.monitors m ON j.monitor_id = m.id WHERE m.deleted_at IS NULL
unfoldable pub join_monitors : List AppMonitor → List AppJob → List LeasedRow
join_monitors monitors [] = []
join_monitors monitors (j ∷ jobs) =
    let rest = join_monitors monitors jobs in
    elim (find (λ m. m.id == j.monitor_id && is_none m.deleted_at) monitors) [
      | none ↦ rest
      | some m ↦ leased_row j m ∷ rest
    ]

unfoldable pub lease_jobs_with_monitor_data :
    ℕ
    → (String → Bool)
    → LeaseJobsParams
    → List AppMonitor
    → List AppJob
    → List LeasedRow × List AppJob
lease_jobs_with_monitor_data now locked p monitors jobs =
    let (rows, jobs') = lease_jobs_with_fallback now locked p jobs in
    (join_monitors monitors rows, jobs')
