-- ===== src/Tests/Jobs.antt =====
-- Concrete runs of the statements on app.jobs (internal/app/control-plane/store/sqlc/jobs.sql.go) and on
-- ts.results_raw.
use openseer.Base.{
  ℕ, String, ◌≡◌, refl, ◌≢◌, ◌⊎◌, Bool, true, false, not, ◌&&◌, none, some, List, [], ◌∷◌, arith,
  All, filter, str_eq_iff, ok, err,
}
use openseer.Base.Int.{pos}
use openseer.ControlPlane.Ingest.{MonitorResult, convert_status, upsert_params}
use openseer.Store.Jobs.{
  ready, leased, done, AppJob, CreateJobParams, LeaseJobsParams, can_lease, before, pick, among,
  get_job_by_run_id,
}
use openseer.Store.Jobs.Exclusive.{lease_exclusive}
use openseer.Store.Jobs.Invariant.{IsTable, apply_all-IsTable}
use openseer.Store.Jobs.Leasing.{pick_priority}
use openseer.Store.Jobs.Lifecycle.{
  JobOp, create_idempotent, lease, renew, complete, clean, apply, apply_all, Move, Dropped,
}
use openseer.Store.Jobs.Lookup.{get-apply}
use openseer.Store.Jobs.Spacing.{too_near, Spaced, apply-Spaced}
use openseer.Store.Jobs.Table.{Distinct}
use openseer.Store.Results.{ResultRow, put_result, upsert_result}
use openseer.Store.Errors.{constraint}
use openseer.Base.Sort.{insert_sorted, sort}

abbrev pub ready_job : AppJob
ready_job = record {
  run_id = "r1";
  monitor_id = "m1";
  region = "eu";
  status = ready;
  scheduled_at = 1_000_000_000;
  lease_expires_at = none;
  worker_id = none;
  created_at = 5;
  deleted_at = none;
}

abbrev pub leased_job : AppJob
leased_job = record {
  run_id = "r2";
  monitor_id = "m2";
  region = "global";
  status = leased;
  scheduled_at = 900_000_000;
  lease_expires_at = some 3_000_000_000;
  worker_id = some "w1";
  created_at = 5;
  deleted_at = none;
}

abbrev pub done_job : AppJob
done_job = record {
  run_id = "r3";
  monitor_id = "m1";
  region = "eu";
  status = done;
  scheduled_at = 100_000_000;
  lease_expires_at = none;
  worker_id = some "w2";
  created_at = 5;
  deleted_at = none;
}

abbrev pub three_jobs : List AppJob
three_jobs = ready_job ∷ leased_job ∷ done_job ∷ []

pub three_jobs-Distinct : Distinct three_jobs
three_jobs-Distinct = (refl, (refl, (refl, tt)))

-- Two seconds.
abbrev pub now : ℕ
now = 2_000_000_000

abbrev pub nobody : String → Bool
nobody run_id = false

abbrev poll : LeaseJobsParams
poll = record { worker_id = "w9"; limit = 1; region = "eu"; lease_expires_at = 4_000_000_000 }

abbrev later_poll : LeaseJobsParams
later_poll = record { worker_id = "w8"; limit = 3; region = "us"; lease_expires_at = 5_000_000_000 }

leased_found : get_job_by_run_id "r2" three_jobs ≡ ok leased_job
unfolding get_job_by_run_id
leased_found = refl

done_found : get_job_by_run_id "r3" three_jobs ≡ ok done_job
unfolding get_job_by_run_id
done_found = refl

abbrev rival : String
rival = "w7"

abbrev pub owner : String
owner = "w1"

w7_not_w1 : rival ≢ owner
w7_not_w1 e = let t : false ≡ true = (str_eq_iff rival owner).1 e in absurd (ground arith)

lease_exclusive_example :
    get_job_by_run_id "r2" (apply now (complete "r2" "w7") three_jobs) ≡ ok leased_job
lease_exclusive_example =
    lease_exclusive now (complete "r2" "w7") "r2" "w1" 3_000_000_000 three_jobs three_jobs-Distinct
      leased_found (refl, refl, refl) (ground arith) w7_not_w1

abbrev some_ops : List (ℕ × JobOp)
some_ops = (now, lease nobody poll) ∷ (now, complete "r1" "w9") ∷ (now, clean now 10) ∷ []

apply_all-IsTable_example : IsTable (apply_all some_ops three_jobs)
apply_all-IsTable_example =
    apply_all-IsTable some_ops three_jobs
      (record { distinct = three_jobs-Distinct; shaped = (tt, (tt, (tt, tt))) })

get-apply_example :
    ((k : AppJob) × (get_job_by_run_id "r2" (apply now (renew "r2" "w1" 9_000_000_000) three_jobs)
        ≡ ok k)
      × Move now leased_job k)
    ⊎ Dropped (renew "r2" "w1" 9_000_000_000) leased_job
get-apply_example =
    get-apply now (renew "r2" "w1" 9_000_000_000) "r2" three_jobs three_jobs-Distinct leased_found

-- A job of no region that was due earlier, and one of the region that is due later.
abbrev busy_jobs : List AppJob
busy_jobs =
    record ready_job { run_id = "r5"; region = "global"; scheduled_at = 1 }
    ∷ record ready_job { run_id = "r6"; scheduled_at = 1_500_000_000 }
    ∷ three_jobs

-- The limit of the poll is one: two of the jobs that could be leased are passed over.
one_picked : pick now nobody poll busy_jobs ≡ ready_job ∷ []
unfolding pick can_lease before sort insert_sorted
one_picked = refl

two_passed_over :
    filter
      (λ j. can_lease now nobody "eu" j && not (among (pick now nobody poll busy_jobs) j))
      busy_jobs
    ≡ record ready_job { run_id = "r5"; region = "global"; scheduled_at = 1 }
      ∷ record ready_job { run_id = "r6"; scheduled_at = 1_500_000_000 }
      ∷ []
unfolding pick can_lease before sort insert_sorted
two_passed_over = refl

pick_priority_example :
    All
      (λ j. All (λ k. before "eu" j k ≡ false) (pick now nobody poll busy_jobs))
      (filter
        (λ j. can_lease now nobody "eu" j && not (among (pick now nobody poll busy_jobs) j))
        busy_jobs)
pick_priority_example = pick_priority now nobody poll busy_jobs

abbrev half_second : String → ℕ
half_second id = 500_000_000

abbrev next_run : CreateJobParams
next_run = record {
  run_id = "r4";
  monitor_id = "m2";
  region = "global";
  scheduled_at = 2_000_000_000;
}

three_jobs-Spaced : Spaced half_second three_jobs
unfolding too_near
three_jobs-Spaced = (refl, (refl, (refl, tt)))

abbrev creation : JobOp
creation = create_idempotent next_run 1_500_000_000 2_500_000_000

apply-Spaced_example : Spaced half_second (apply now creation three_jobs)
apply-Spaced_example =
    apply-Spaced half_second now creation three_jobs three_jobs-Distinct
      (ground arith, ground arith) three_jobs-Spaced

abbrev pub a_result : MonitorResult
a_result = record {
  run_id = "r2";
  monitor_id = "m2";
  region = "global";
  event_at = 7;
  status = "OK";
  http_code = some (pos 200);
  dns_ms = none;
  connect_ms = some (pos 0);
  tls_ms = none;
  ttfb_ms = some (pos 12);
  download_ms = some (pos 3);
  total_ms = some (pos 15);
  size_bytes = none;
  error_message = some "";
}

abbrev a_row : ResultRow
a_row = upsert_params a_result

abbrev later_row : ResultRow
later_row = record a_row { event_at = 9; status = "FAIL" }

-- The first row's key is there already, with another monitor; the other key stays.
abbrev two_rows : List ResultRow
two_rows = later_row ∷ record a_row { monitor_id = "m1"; status = "ERROR" } ∷ []

a_row_stored :
    upsert_result a_row two_rows
    ≡ (ok (record a_row { monitor_id = "m1" }), later_row ∷ record a_row { monitor_id = "m1" } ∷ [])
unfolding upsert_result put_result upsert_params convert_status
a_row_stored = refl

unknown_refused :
    upsert_result (record a_row { status = "UNKNOWN" }) two_rows ≡ (err constraint, two_rows)
unfolding upsert_result put_result upsert_params convert_status
unknown_refused = refl
