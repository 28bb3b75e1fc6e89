-- ===== src/Tests.antt =====
-- Runs on concrete requests, and each theorem that has hypotheses at an input that meets them.
mod Fixtures
mod Audit
mod Identity
mod Change
mod Requests
mod Control
mod Incident
mod Worker
mod Cmdb
