-- ===== src/Checks.antt =====
-- The package src/health_monitor/checks: the base class and the three checks.
pub mod Base
pub mod Heartbeat
pub mod Storage
pub mod Memory
