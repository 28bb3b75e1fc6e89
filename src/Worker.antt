-- ===== src/Worker.antt =====
-- apps/worker/src/aiops_x_worker/tasks.py: the periodic tasks over the audit log and its outbox.
pub mod Batch
pub mod Outbox
pub mod Archive
pub mod Delivery
pub mod Transparency
