-- ===== src/Liveness.antt =====
-- The handling of lost and returning clients (server/services/client_liveness_service.py).
pub mod Service
pub mod Records
pub mod Loss
pub mod Counts
pub mod Reports
pub mod Kept
pub mod Runs
mod Tests
