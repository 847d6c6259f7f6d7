-- ===== src/Watchdog.antt =====
-- scripts/desktop_control_plane_watchdog.py.
pub mod Host
pub mod Version
pub mod Environment
pub mod Runner
pub mod Site
pub mod Cycle
pub mod Orphan
pub mod Stopping
pub mod Install
mod Examples
mod StopExamples
mod InstallExamples
