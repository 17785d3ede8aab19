-- ===== src/Hub.antt =====
-- hub.go: the in-memory log hub. Index is its linked indices, Ring its circular buffer, Ingest and
-- Query its operations on entries.
mod Tests
pub mod Types
pub mod Index
pub mod Ring
pub mod State
pub mod Ingest
pub mod Query
pub mod Subscribe
pub mod Payload
