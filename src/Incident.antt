-- ===== src/Incident.antt =====
-- apps/api/src/aiops_x_api/modules/incident: incidents, their timeline and their postmortems.
pub mod Models
pub mod Policy
pub mod Effects
pub mod Draft
pub mod Update
pub mod Postmortem
pub mod Outcomes
pub mod Soundness
pub mod Steps
pub mod Closing
pub mod Authorship
