-- ===== src/Console.antt =====
-- The React console, frontend/src: one child for each part of it.
pub mod Lines
pub mod Api
pub mod Format
pub mod Labels
pub mod Layout
pub mod Dashboard
pub mod Access
pub mod Adhoc
pub mod Settings
pub mod Tests
