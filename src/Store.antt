-- ===== src/Store.antt =====
-- The database of the control plane (internal/app/control-plane/store/sqlc).
pub mod Errors
pub mod Jobs
pub mod Workers
pub mod Monitors
pub mod Results
pub mod Sessions
pub mod Dispatch
pub mod Db
