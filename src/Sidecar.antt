-- ===== src/Sidecar.antt =====
-- cmd/sidecar/main.go: the HTTP sidecar.
pub mod Batch
mod Tests
