-- ===== src/Core.antt =====
-- What every component of the control plane uses: errors, JSON values, the Python library calls.
pub mod Errors
pub mod Json
pub mod Runtime
pub mod Patch
pub mod Table
