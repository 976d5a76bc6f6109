-- ===== src/Jobs/Invariant.antt =====
-- internal/jobs/manager.go: the invariant of the manager and its workers, and its consequences.
pub mod Flags
pub mod Local
pub mod Totals
pub mod Effect
pub mod Global
pub mod Move
pub mod Reached
pub mod Capacity
pub mod Stale
