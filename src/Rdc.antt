-- ===== src/Rdc.antt =====
-- scripts/pc24x7_rdc_recovery.py: recovery of the remote desktop through its two scheduled tasks.
pub mod Claim
pub mod Recover
pub mod Ownership
pub mod Headless
pub mod Proven
mod Examples
