-- ===== src/Broker.antt =====
-- scripts/desktop_admin_broker.py: the broker that runs the owner's commands, taken from the
-- comments of one issue.
pub mod Comment
pub mod Process
pub mod Activation
pub mod Refresh
pub mod Actions
pub mod Watch
pub mod Lock
pub mod Installation
mod LockExamples
mod InstallExamples
mod Upkeep
mod Examples
