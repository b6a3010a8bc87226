-- ===== src/Deployment.antt =====
-- The deployment pipeline: the record of a deployment, its gates, the step that decides and the ones
-- that end it, and the approval of a deployment that waits for a person.
pub mod Models
pub mod Gates
pub mod Status
pub mod Enforce
pub mod GateLaws
pub mod Approve
pub mod ApproveOnce
pub mod Outcomes
pub mod Simulator
pub mod Leaves
pub mod Parks
pub mod Later
pub mod Held
pub mod Steps
pub mod Once
