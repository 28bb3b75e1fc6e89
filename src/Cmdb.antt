-- ===== src/Cmdb.antt =====
-- apps/api/src/aiops_x_api/modules/cmdb: the dependencies between assets.
pub mod Dependencies
pub mod Exploration
pub mod Correlation
