-- ===== src/Store/Results/Upsert.antt =====
-- UpsertResult of internal/app/control-plane/store/sqlc/results.sql.go: what a reader finds afterwards.
use openseer.Base.{
  ◌≡◌, true, false, Option, some, List, arith, if◌then◌else◌, find, str_eq_self, ok, err,
}
use openseer.Store.Results.{ResultRow, same_result, overwrite, is_result_status, upsert_result}
use openseer.Store.Errors.{constraint}

-- The row of a result's key.
abbrev pub row_of : ResultRow → List ResultRow → Option ResultRow
row_of new = find (λ r. same_result r new)

same_result_self : (r : ResultRow) → same_result r r ≡ true
same_result_self r = ground (arith, str_eq_self r.run_id)

-- A reader of the new row's key finds `stored`, and of any other key what was there.
abbrev pub IsFoundIn : ResultRow → ResultRow → List ResultRow → List ResultRow → Type 0
IsFoundIn new stored old rows =
    (other : ResultRow)
    → row_of other rows ≡ (if same_result new other then some stored else row_of other old)

-- A stored row: what RETURNING gives has the new values, but the monitor and region of a row that was there.
abbrev pub IsAccepted : ResultRow → List ResultRow → Type 0
IsAccepted new rows =
    (is_result_status new.status ≡ true)
    × (stored : ResultRow) × ((upsert_result new rows).0 ≡ ok stored)
    × (overwrite new stored ≡ stored)
    × IsFoundIn new stored rows (upsert_result new rows).1

abbrev pub IsRefused : ResultRow → List ResultRow → Type 0
IsRefused new rows =
    (is_result_status new.status ≡ false)
    × ((upsert_result new rows).0 ≡ err constraint)
    × ((upsert_result new rows).1 ≡ rows)
