-- ===== src/ControlPlane/WorkerService/Commit.antt =====
-- SubmitResult of internal/app/control-plane/api/worker/service.go: what a committed result means.
use openseer.Base.{
  String, ◌≡◌, Bool, true, false, ◌&&◌, some, List, any, string_eq, nat_eq, ◌==◌, Result, ok, err,
}
use openseer.ControlPlane.WorkerService.{Code, SubmitResultResponse}
use openseer.Store.Jobs.{is_done, AppJob}
use openseer.Store.Db.{Database}
use openseer.Store.Results.{ResultRow, overwrite}
use openseer.ControlPlane.Ingest.{MonitorResult, upsert_params}
use openseer.Store.Results.Upsert.{row_of}

-- The job of a run is done.
abbrev pub is_done_run : String → AppJob → Bool
is_done_run run_id j = j.run_id == run_id && is_done j.status

abbrev pub IsDone : String → Database → Type 0
IsDone run_id s = any (is_done_run run_id) s.jobs ≡ true

-- The result's row is in the table with the values of the message, except that a row which was there
-- keeps its monitor and region.
abbrev pub IsStored : MonitorResult → List ResultRow → Type 0
IsStored result rows =
    (row : ResultRow) × (row_of (upsert_params result) rows ≡ some row)
    × (overwrite (upsert_params result) row ≡ row)

abbrev pub says_committed : Result Code SubmitResultResponse → Bool
says_committed (ok answer) = answer.committed
says_committed (err e) = false
