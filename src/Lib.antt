-- ===== src/Lib.antt =====
-- AIOps-X control plane (apps/api/src/aiops_x_api, Python, FastAPI on SQLAlchemy).
--
-- The API is a set of modules over one relational database. A request handler checks the caller's
-- permission and scope, opens a transaction, reads and writes rows, appends an entry to the audit log
-- and commits; an `ApplicationError` anywhere rolls the transaction back.
--
-- A handler is a function from the call (the caller, the request, the clock and the identifiers that
-- are drawn) and the tables to a `Result` and the new tables. What is read from outside (the clock,
-- new UUIDs, the JSON text of a document and its SHA-256, `str.strip`, the text of dates) is a field
-- of `Core.Runtime` or of the call's readings. UUIDs and instants are numbers; instants are compared as
-- UTC instants, which is what `_as_utc` makes of them. Handlers of one table run one after the other:
-- they take row locks (`with_for_update`), and the audit log an advisory lock for each partition.
-- The length limits of request fields, which the schema checks before a handler runs, are left out.
--
-- Files:
--   Prelude, Prelude/*     names of the library that are passed on, Boolean tests, lists and texts.
--   Core/*                 core/errors.py (errors as values), JSON documents, the runtime, and tables
--                          whose rows are found by their primary key (Core/Table).
--   Identity/*             modules/identity/security.py: the principal, `require_permission`,
--                          `ensure_project_scope`, `ensure_asset_scope`, `scoped_project_ids`, and
--                          `_project_grants_for_user`, which makes grants from memberships.
--   Audit/*                modules/audit: `append_audit` with its row in the event outbox
--                          (application.py) and `verify_audit_integrity` (api.py).
--   References             the `require_..._refs` functions of evidence, incident, automation, CMDB,
--                          tenant, operations, change and identity, by which a handler
--                          checks the identifiers in a request.
--   Change/*               modules/change: `create_change`, `update_change`, `submit_change`,
--                          `decide_change` and `change_status` (api.py), the tables and rules they use
--                          (application.py, schemas.py, infrastructure/models.py). Each handler is a
--                          transaction (`..._tx`) and its commit.
--   Cmdb/*                 modules/cmdb: `dependency_correlation_key` (application.py), by which alerts
--                          of assets that depend on each other are correlated.
--   Incident/*             modules/incident: `create_incident`, `update_incident`, `add_timeline_entry`
--                          and `upsert_postmortem` (api.py), with application.py, schemas.py and
--                          infrastructure/models.py. Core/Patch is how PATCH assigns fields.
--   Automation/*           modules/automation: `create_automation_job`, `decide_approval` and
--                          `_validate_inputs` (api.py), contracts.py and infrastructure/models.py,
--                          with what they use of modules/operations (contracts.py).
--   Agents/*               modules/agent_control: `get_current_agent` (security.py) and every handler
--                          of api.py that writes (registration tokens, enrolment, certificate
--                          renewal, heartbeat, disabling, tasks and their results), contracts.py,
--                          schemas.py and infrastructure/models.py.
--                          These modules and Automation work on one set of tables, `ControlDb`: a
--                          task of an agent starts and completes the job of Automation. Runbooks,
--                          events, assets and windows are tables that they only read, but for the
--                          agent state of an asset. `Pki` stands for OpenSSL and pki.py, whose
--                          errors are results (a key or a certificate that is missing), and the
--                          call's readings carry tokens and identifiers that are drawn. Which rows
--                          another transaction has locked, for the queue of tasks, is a function.
--   Worker/*               apps/worker/src/aiops_x_worker/tasks.py: the batch query, the publisher of
--                          the event outbox, its consumer's check, and the archive of the audit log.
--                          A row that another worker has locked is skipped; what the broker and the
--                          object store answer is a field of the run. A run whose connection fails as a
--                          whole changes no row, and is not a run here.
--   Tests/*                runs of the models at concrete inputs.
--
-- Every definition is total. Loops are structural recursion on lists, but for the search of
-- `dependency_correlation_key`, which has fuel for as many turns as its limit of 200 assets: each
-- turn visits another asset of the component, and the loop ends when this has reached the limit.
--
-- Not modelled: queries without effects (lists, details), the route that installs the built-in
-- runbook, the limit of 64 KiB on the output of a task, metrics, access tokens and passwords,
-- other services (OIDC, Vault, Prometheus, model servers), the web client, the edge agent,
-- migrations and deployment. Error messages are left out, error codes and HTTP statuses are kept.
pub mod Prelude
pub mod Core
pub mod Identity
pub mod Audit
pub mod References
pub mod Change
pub mod Cmdb
pub mod Incident
pub mod Worker
pub mod Automation
pub mod Agents
mod Tests
