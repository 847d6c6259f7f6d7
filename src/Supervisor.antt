-- ===== src/Supervisor.antt =====
-- scripts/runtime_health_supervisor.py: the probe and recovery cycle with its circuit breaker.
pub mod Config
pub mod Cycle
pub mod Outcome
pub mod Breaker
pub mod Isolation
pub mod Targets
mod Examples
