-- ===== src/Tests/Worker.antt =====
-- Runs of the periodic tasks.
use mathlib.Core.List.{Memᴰ}
use aiops_x_enterprise_new.Prelude.{
  ◌≤◌, ◌≡◌, refl, true, false, none, some, List, [], ◌∷◌, length, All, select, arith,
}
use aiops_x_enterprise_new.Core.Json.{Json, end}
use aiops_x_enterprise_new.Audit.Models.{AuditLog, EventOutbox, OutboxStatus, AuditStore}
use aiops_x_enterprise_new.Audit.Append.{AuditCall, append_audit, canonical_audit_document}
use aiops_x_enterprise_new.Audit.Verify.{verify_audit_integrity}
use aiops_x_enterprise_new.Worker.Batch.{batch_limit}
use aiops_x_enterprise_new.Worker.Outbox.{
  PublishRun, is_due, is_pending, batch_of, backoff, publish_pending,
}
use aiops_x_enterprise_new.Worker.Delivery.{
  IsDelivery, IsDeliverable, no_event_lost, due_published, append_audit-IsDeliverable,
}
use aiops_x_enterprise_new.Worker.Archive.{ArchiveRun, archive_audit_entries}
use aiops_x_enterprise_new.Worker.Transparency.{archive_keeps_integrity}
use aiops_x_enterprise_new.Tests.Fixtures.{runtime, request, audit_readings, empty_audit}

abbrev login : AuditCall
login = record {
  action = "auth.login";
  resource_type = "session";
  outcome = "success";
  principal = none;
  actor_id = some "u";
  actor_type = none;
  tenant_id = some 7;
  project_id = none;
  resource_id = none;
  metadata = end;
  producer = "aiops-x-api";
}

abbrev store : AuditStore
store = append_audit runtime (audit_readings 1) request login empty_audit

-- The broker takes every message, and nobody else is at work.
abbrev good_run : PublishRun
good_run = record { now = 5; locked = λ r. false; error = λ r. none; sent_at = λ r. 6 }

abbrev bad_run : PublishRun
bad_run = record good_run { error = λ r. some "TimeoutError" }

abbrev event : EventOutbox
event = record {
  id = 4;
  tenant_id = 7;
  project_id = none;
  event_type = "auth.login";
  subject = "aiops.events.v1.auth.login";
  payload = Json.null;
  status = OutboxStatus.pending;
  attempts = 8;
  next_attempt_at = 3;
  last_error = none;
  published_at = none;
  created_at = 2;
}

abbrev old_event : EventOutbox
old_event = record event { id = 3; status = OutboxStatus.published; published_at = some 1 }

abbrev table : List EventOutbox
table = event ∷ old_event ∷ []

good_counts :
    ((publish_pending good_run table).published ≡ 1)
    × ((publish_pending good_run table).failed ≡ 0)
    × ((publish_pending good_run table).pending ≡ 0)
    × ((publish_pending bad_run table).failed ≡ 1)
    × ((publish_pending bad_run table).pending ≡ 1)
unfolding publish_pending
good_counts = (refl, refl, refl, refl, refl)

-- After nine failures the delay stops growing.
delays : (backoff 1 ≡ 2) × (backoff 8 ≡ 256) × (backoff 9 ≡ 300)
unfolding backoff
delays = (refl, refl, refl)

no_event_lost_example :
    (r' : EventOutbox) × Memᴰ r' (publish_pending bad_run table).outbox
    × IsDelivery bad_run (batch_of bad_run table) event r'
no_event_lost_example = no_event_lost bad_run table event (Memᴰ.head refl)

one_due : length (select (is_due good_run) table) ≤ batch_limit
one_due = omega arith

due_published_example :
    (r' : EventOutbox) × Memᴰ r' (publish_pending good_run table).outbox
    × (r'.id ≡ 4)
    × (is_pending r'.status ≡ false)
    × (r'.published_at ≡ some 6)
due_published_example = due_published good_run table event one_due (Memᴰ.head refl) refl refl

append_audit-IsDeliverable_example : All IsDeliverable store.outbox
append_audit-IsDeliverable_example =
    append_audit-IsDeliverable runtime (audit_readings 1) request login empty_audit tt

abbrev archive_run : ArchiveRun
archive_run = record {
  runtime = runtime;
  now = 9;
  locked = λ e. false;
  stored = λ e. true;
  bucket = "audit";
  date_path = λ t. "2026/01/01";
  padded = λ n. "1";
}

archive_counts :
    ((archive_audit_entries archive_run store.logs).archived ≡ 1)
    × ((archive_audit_entries archive_run store.logs).failed ≡ 0)
unfolding append_audit archive_audit_entries canonical_audit_document
archive_counts = (refl, refl)

archive_keeps_integrity_example :
    verify_audit_integrity runtime 7 (archive_audit_entries archive_run store.logs).logs
    ≡ verify_audit_integrity runtime 7 store.logs
archive_keeps_integrity_example = archive_keeps_integrity runtime archive_run 7 store.logs

abbrev entry : AuditLog
entry = record {
  id = 1;
  tenant_id = some 7;
  project_id = none;
  actor_type = "user";
  actor_id = "u";
  action = "auth.login";
  resource_type = "session";
  resource_id = none;
  request_id = "r";
  trace_id = "t";
  outcome = "success";
  metadata_json = end;
  partition_key = "uuuuuuu";
  sequence_no = 1;
  previous_hash = "";
  entry_hash = "u";
  archived_at = none;
  archive_object_ref = none;
  created_at = 1;
}
