-- ===== src/Chat.antt =====
-- The commands of the chat adapters, internal/commands.
pub mod Commands
