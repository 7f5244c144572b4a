-- ===== src/Store/Results/Queries.antt =====
-- The queries of internal/app/control-plane/store/sqlc/results.sql.go for one run.
use openseer.Base.{
  ℕ, String, ◌&&◌, Option, none, some, List, count_if, find, string_eq, nat_eq, ◌==◌, Result, ok,
  err,
}
use openseer.Base.Int.{ℤ}
use openseer.Store.Errors.{DbError, no_rows}
use openseer.Store.Results.{ResultRow}

unfoldable pub count_results_by_run_id : String → List ResultRow → ℕ
count_results_by_run_id run_id = count_if (λ r. r.run_id == run_id)

pub record ResultSummary : Type 0 where
  pub status : String
  pub http_code : Option ℤ
  pub total_ms : Option ℤ

abbrev pub summary : ResultRow → ResultSummary
summary r = record { status = r.status; http_code = r.http_code; total_ms = r.total_ms }

abbrev pub summary_of : Option ResultRow → Result DbError ResultSummary
summary_of none = err no_rows
summary_of (some r) = ok (summary r)

unfoldable pub get_result_by_run_id_and_time :
    String → ℕ → List ResultRow → Result DbError ResultSummary
get_result_by_run_id_and_time run_id event_at rows =
    summary_of (find (λ r. r.run_id == run_id && r.event_at == event_at) rows)
