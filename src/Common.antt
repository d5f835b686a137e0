-- ===== src/Common.antt =====
-- The package src/health_monitor/common: the interval timer and the value types of the checks.
pub mod Timer
pub mod Types
