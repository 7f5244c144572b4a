-- ===== src/Store/Workers/Capabilities.antt =====
-- The statements of internal/app/control-plane/store/sqlc/workers.sql.go on app.worker_capabilities, the
-- workers that are active, and RegisterWorker. `text_before` stands for the order of texts in the
-- database's collation.
use openseer.Base.{
  ℕ, String, Bool, not, ◌&&◌, ◌||◌, none, some, List, [], ◌∷◌, ◌++◌, map, if◌then◌else◌, filter,
  find, string_eq, nat_eq, ◌==◌,
}
use openseer.Base.Sort.{sort}
use openseer.Store.Workers.{active, AppWorker, has_id, set_where, is_healthy}

pub record AppWorkerCapability : Type 0 where
  pub worker_id : String
  pub capability_key : String
  pub capability_value : String

-- ON CONFLICT (worker_id, capability_key) DO UPDATE SET capability_value
unfoldable pub add_worker_capability :
    AppWorkerCapability → List AppWorkerCapability → List AppWorkerCapability
add_worker_capability new [] = new ∷ []
add_worker_capability new (old ∷ rows) =
    if old.worker_id == new.worker_id && old.capability_key == new.capability_key
    then new ∷ rows
    else old ∷ add_worker_capability new rows

unfoldable pub delete_worker_capabilities :
    String → List AppWorkerCapability → List AppWorkerCapability
delete_worker_capabilities worker_id = filter (λ c. not (c.worker_id == worker_id))

unfoldable pub get_worker_capabilities : String → List AppWorkerCapability → List (String × String)
get_worker_capabilities worker_id rows =
    map (λ c. (c.capability_key, c.capability_value)) (filter (λ c. c.worker_id == worker_id) rows)

-- ORDER BY region, id
abbrev pub worker_before : (String → String → Bool) → AppWorker → AppWorker → Bool
worker_before text_before v w =
    text_before v.region w.region || (v.region == w.region && text_before v.id w.id)

unfoldable pub get_active_workers : (String → String → Bool) → ℕ → List AppWorker → List AppWorker
unfolding is_healthy
get_active_workers text_before now workers =
    sort (worker_before text_before) (filter (is_healthy now) workers)

pub record RegisterWorkerParams : Type 0 where
  pub id : String
  pub region : String
  pub version : String

abbrev pub registered : ℕ → RegisterWorkerParams → AppWorker
registered now p = record {
  id = p.id;
  region = p.region;
  version = p.version;
  last_seen_at = now;
  registered_at = now;
  status = active;
  hostname = none;
  enrolled_at = now;
  revoked_at = none;
  revoked_reason = none;
  token_hash = none;
}

abbrev pub seen_again : ℕ → AppWorker → AppWorker
seen_again now w = record w { last_seen_at = now; status = active }

-- ON CONFLICT (id) DO UPDATE SET last_seen_at, status
unfoldable pub register_worker :
    ℕ → RegisterWorkerParams → List AppWorker → AppWorker × List AppWorker
register_worker now p workers = elim (find (has_id p.id) workers) [
  | none ↦ (registered now p, workers ++ registered now p ∷ [])
  | some w ↦ (seen_again now w, set_where (has_id p.id) (seen_again now) workers)
]
