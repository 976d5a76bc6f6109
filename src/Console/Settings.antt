-- ===== src/Console/Settings.antt =====
-- frontend/src/App.tsx: `ConfigurationPage` and its parts.
pub mod Secret
pub mod Editor
pub mod Fields
pub mod Page
pub mod Events
