-- ===== src/Tests.antt =====
-- The theorems at concrete inputs.
mod Dependencies
mod Registry
mod Approval
mod Deployment
mod Authentication
mod Audit
mod Impact
mod Invokes
mod Planner
mod Quota
mod Runtime
mod Screening
mod Startup
mod Upgrade
