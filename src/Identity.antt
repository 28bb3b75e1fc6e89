-- ===== src/Identity.antt =====
-- apps/api/src/aiops_x_api/modules/identity: who makes a request, and what the request may reach.
pub mod Principal
pub mod Scope
pub mod Membership
pub mod Grants
pub mod Access
