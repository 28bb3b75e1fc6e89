-- ===== src/Change.antt =====
-- apps/api/src/aiops_x_api/modules/change: change requests, their approval and their execution.
pub mod Models
pub mod Policy
pub mod Effects
pub mod Draft
pub mod Approval
pub mod Execution
pub mod Outcomes
pub mod Rows
pub mod Soundness
pub mod Steps
pub mod FourEyes
pub mod Evolution
pub mod Lifecycle
