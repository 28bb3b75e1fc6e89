-- ===== src/Audit.antt =====
-- apps/api/src/aiops_x_api/modules/audit: the hash-chained audit log and the outbox of its events.
pub mod Models
pub mod Append
pub mod Verify
pub mod Chain
pub mod Integrity
pub mod Tampering
