-- ===== src/ControlPlane.antt =====
-- The control plane (internal/app/control-plane and internal/pkg).
pub mod Heartbeats
pub mod AuthCache
pub mod Scheduler
pub mod Regions
pub mod Ingest
pub mod JobCleaner
pub mod WorkerService
pub mod Token
pub mod Enrollment
pub mod MonitorsService
pub mod Session
pub mod Dashboard
pub mod System
