-- ===== src/Automation.antt =====
-- apps/api/src/aiops_x_api/modules/automation: runbook jobs and their approval.
pub mod Models
pub mod Inputs
pub mod Jobs
pub mod Requests
pub mod Approvals
pub mod Ties
pub mod Outcomes
pub mod Invariant
pub mod Writes
pub mod Soundness
pub mod Release
pub mod Bounds
