-- ===== src/Web.antt =====
-- The web server, internal/web.
pub mod Sessions
pub mod Accounts
pub mod Actions
pub mod ManualRuns
pub mod Messages
