-- ===== src/Client.antt =====
-- cmd/walspool: the command line client.
pub mod Lines
pub mod Sanitize
mod Tests
