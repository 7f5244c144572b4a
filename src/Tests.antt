-- ===== src/Tests.antt =====
-- Concrete runs of the program's parts (internal/app and internal/pkg).
pub mod Jobs
pub mod Services
pub mod Monitors
pub mod Agent
pub mod Web
pub mod Uptime
pub mod System
pub mod Settings
pub mod Requests
