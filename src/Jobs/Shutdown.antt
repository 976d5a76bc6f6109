-- ===== src/Jobs/Shutdown.antt =====
-- internal/jobs/manager.go: the end of the workers once their contexts are done, which `Wait` waits
-- for after `BeginShutdown`.
pub mod Contexts
pub mod Rank
pub mod Drain
pub mod Ending
mod Tests
