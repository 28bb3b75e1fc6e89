-- ===== src/Agents.antt =====
-- apps/api/src/aiops_x_api/modules/agent_control: edge agents and the tasks they are given.
pub mod Models
pub mod Database
pub mod Access
pub mod Tasks
pub mod Results
pub mod Enrolment
pub mod Withdrawal
pub mod Tables
pub mod Soundness
pub mod Dispatch
pub mod Cancelling
pub mod Registration
pub mod Steps
pub mod Availability
pub mod Binding
pub mod Authentication
