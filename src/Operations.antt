-- ===== src/Operations.antt =====
-- The monitoring of the processes: src/operations/monitoring.ts.
pub mod Monitoring
pub mod Tests
