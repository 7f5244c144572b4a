-- ===== src/ControlPlane/Enrollment/Listing.antt =====
-- ListWorkers of internal/app/control-plane/api/enrollment/service.go.
use openseer.Base.{ℕ, String, ◌||◌, List, map, ltb, nat_beq, if◌then◌else◌, length, Result, ok, err}
use openseer.Base.Int.{ℤ, pos, negsuc}
use openseer.ControlPlane.Enrollment.{WorkerInfo, worker_info}
use openseer.ControlPlane.WorkerService.{Code, internal}
use openseer.Store.Db.{Database, Db, statement}
use openseer.Store.Errors.{DbError}
use openseer.Store.Workers.{AppWorker, status_text, list_workers, count_workers}

pub record ListWorkersResponse : Type 0 where
  pub workers : List WorkerInfo
  pub total_count : ℕ

-- `if pageSize == 0 || pageSize > 100 { pageSize = 100 }`, which lets negative values pass.
abbrev pub page_size_of : ℤ → ℤ
page_size_of (pos n) = if nat_beq n 0 || ltb 100 n then pos 100 else pos n
page_size_of (negsuc n) = negsuc n

abbrev pub list_query : String → String → ℤ → Db (List AppWorker)
list_query region status limit s = (list_workers region status limit s.workers, s)

abbrev pub count_query : String → String → Db ℕ
count_query region status s = (ok (count_workers region status s.workers), s)

-- A failed count falls back to the length of the page.
abbrev pub total_of : List AppWorker → Result DbError ℕ → ℕ
total_of page (ok n) = n
total_of page (err e) = length page

abbrev pub page_outcome :
    String
    → String
    → Result DbError (List AppWorker)
    → Database
    → Result Code ListWorkersResponse × Database
page_outcome region status (err e) s = (err internal, s)
page_outcome region status (ok page) s =
    let (total, s') = statement (count_query region status) s in
    (
      ok (record {
        workers = map (λ w. worker_info (status_text w.status) w) page;
        total_count = total_of page total;
      }),
      s',
    )

-- The filters are Go strings, empty where the request names none.
unfoldable pub list_workers_call :
    String → String → ℤ → Database → Result Code ListWorkersResponse × Database
list_workers_call region status page_size s =
    let (page, s') = statement (list_query region status (page_size_of page_size)) s in
    page_outcome region status page s'
