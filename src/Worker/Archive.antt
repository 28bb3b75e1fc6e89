-- ===== src/Worker/Archive.antt =====
-- apps/worker/src/aiops_x_worker/tasks.py: `_archive_audit_entries`. The object store is a
-- parameter: whether it takes the object of an entry.
use Prim.Native.String.{String, ◌++◌}
use aiops_x_enterprise_new.Prelude.{
  ℕ, Bool, not, ◌&&◌, some, List, map, length, select, contains, if◌then◌else◌, str_eq,
}
use aiops_x_enterprise_new.Core.Patch.{given}
use aiops_x_enterprise_new.Core.Runtime.{json_sha256, Runtime}
use aiops_x_enterprise_new.Audit.Models.{AuditLog}
use aiops_x_enterprise_new.Audit.Append.{canonical_audit_document}
use aiops_x_enterprise_new.Worker.Batch.{oldest}

pub record ArchiveRun : Type 0 where
  pub runtime : Runtime
  pub now : ℕ
  -- The rows that another worker has locked.
  pub locked : AuditLog → Bool
  -- Whether `_put_worm_object` returns for the row.
  pub stored : AuditLog → Bool
  -- `settings.audit_archive_bucket`.
  pub bucket : String
  -- `instant:%Y/%m/%d`.
  pub date_path : ℕ → String
  -- `number:020d`.
  pub padded : ℕ → String

abbrev pub to_archive : ArchiveRun → AuditLog → Bool
to_archive run e = not (given e.archived_at) && not (run.locked e)

-- The hash of the row as it stands is the hash that was computed when it was appended.
unfoldable pub has_valid_hash : Runtime → AuditLog → Bool
has_valid_hash rt e = str_eq (json_sha256 rt (canonical_audit_document rt e)) e.entry_hash

object_name : ArchiveRun → AuditLog → String
object_name run e =
    "tenant/"
    ++ e.partition_key
    ++ "/"
    ++ run.date_path e.created_at
    ++ "/"
    ++ run.padded e.sequence_no
    ++ "-"
    ++ run.runtime.uuid_text e.id
    ++ ".json"

-- The reference that `_put_worm_object` returns.
unfoldable pub object_ref : ArchiveRun → AuditLog → String
unfolding object_name
object_ref run e = "s3://" ++ run.bucket ++ "/" ++ object_name run e

abbrev pub archivable : ArchiveRun → AuditLog → Bool
archivable run e = has_valid_hash run.runtime e && run.stored e

-- One turn of the loop.
unfoldable pub archive_row : ArchiveRun → AuditLog → AuditLog
unfolding object_ref
archive_row run e =
    if archivable run e
    then record e { archive_object_ref = some (object_ref run e); archived_at = some run.now }
    else e

abbrev pub in_archive_batch : ArchiveRun → List ℕ → AuditLog → Bool
in_archive_batch run batch e = to_archive run e && contains e.id batch

abbrev pub archive_one : ArchiveRun → List ℕ → AuditLog → AuditLog
archive_one run batch e = if in_archive_batch run batch e then archive_row run e else e

-- The table after the run, and the counters that the run reports.
pub record ArchiveResult : Type 0 where
  pub logs : List AuditLog
  pub archived : ℕ
  pub failed : ℕ

abbrev pub archive_batch : ArchiveRun → List AuditLog → List ℕ
archive_batch run logs =
    oldest (λ (e : AuditLog). e.id) (λ (e : AuditLog). e.created_at) (to_archive run) logs

unfoldable pub archive_audit_entries : ArchiveRun → List AuditLog → ArchiveResult
unfolding archive_row oldest has_valid_hash
archive_audit_entries run logs =
    let batch = archive_batch run logs in
    record {
      logs = map (archive_one run batch) logs;
      archived = length (select (λ e. in_archive_batch run batch e && archivable run e) logs);
      failed = length (select (λ e. in_archive_batch run batch e && not (archivable run e)) logs);
    }
