-- ===== src/Capacity.antt =====
-- The capacity request: scripts/desktop_gitlab_capacity_admission.py decides on it,
-- scripts/desktop_gitlab_capacity_claim.py consumes it, and
-- scripts/desktop_gitlab_capacity_claim_status.py looks at the claim.
pub mod Pattern
pub mod Keys
pub mod Metadata
pub mod Equal
pub mod Issue
pub mod Event
pub mod Head
pub mod Admission
pub mod Claim
pub mod File
pub mod Root
pub mod Status
mod Examples
mod RootExamples
