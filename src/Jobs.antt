-- ===== src/Jobs.antt =====
-- The job manager, internal/jobs/manager.go.
pub mod State
pub mod Names
pub mod Queue
pub mod Keepalive
pub mod Adhoc
pub mod Manager
pub mod Worker
pub mod System
pub mod Invariant
pub mod Shutdown
pub mod Locks
pub mod Tests
