-- ===== src/Audit/Append.antt =====
-- apps/api/src/aiops_x_api/modules/audit/application.py: `append_audit` adds an entry to the chain
-- of its partition, and an outbox event if a tenant is known.
use Prim.Native.Nat.{zero, suc}
use Prim.Native.String.{String, ◌++◌}
use aiops_x_enterprise_new.Prelude.{
  ℕ, ◌+◌, Option, none, some, List, [], ◌∷◌, ltb, if◌then◌else◌, str_eq,
}
use aiops_x_enterprise_new.Core.Json.{
  Json, null, number, text, object, Fields, end, field, text_or_null, merge,
}
use aiops_x_enterprise_new.Core.Runtime.{json_sha256, Runtime}
use aiops_x_enterprise_new.Identity.Principal.{Principal}
use aiops_x_enterprise_new.Audit.Models.{AuditLog, EventOutbox, AuditStore, pending}

-- `request.state`: the two identifiers, if the middleware has set them.
pub record RequestState : Type 0 where
  pub request_id : Option String
  pub trace_id : Option String

-- What one call reads from outside: the clock and `uuid4()`. The outbox row's `created_at` is the
-- database's `now()`.
pub record AuditReadings : Type 0 where
  pub occurred_at : ℕ
  pub entry_id : ℕ
  pub event_id : ℕ
  pub stored_at : ℕ

-- The keyword arguments of `append_audit`.
pub record AuditCall : Type 0 where
  pub action : String
  pub resource_type : String
  pub outcome : String
  pub principal : Option Principal
  pub actor_id : Option String
  pub actor_type : Option String
  pub tenant_id : Option ℕ
  pub project_id : Option ℕ
  pub resource_id : Option String
  pub metadata : Fields
  pub producer : String

abbrev pub genesis_hash : String
genesis_hash = "0000000000000000000000000000000000000000000000000000000000000000"

-- `value or default`: the empty text counts as absent.
abbrev text_or : Option String → String → String
text_or none d = d
text_or (some s) d = if str_eq s "" then d else s

abbrev get_or {ℓ} : {A : Type ℓ} → Option A → A → A
get_or none d = d
get_or (some a) d = a

-- `action[:limit]`.
unfoldable pub first_chars : ℕ → String → String
first_chars zero s = ""
first_chars (suc n) String.[] = ""
first_chars (suc n) (String.◌∷◌ c s) = String.◌∷◌ c (first_chars n s)

unfoldable pub effective_tenant : AuditCall → Option ℕ
effective_tenant c = elim c.principal [ some p ↦ some p.tenant_id | none ↦ c.tenant_id ]

-- The partition of a tenant, or of the platform.
abbrev pub partition_of : Runtime → Option ℕ → String
partition_of rt (some t) = rt.uuid_text t
partition_of rt none = "platform"

abbrev newer : AuditLog → Option AuditLog → Option AuditLog
newer e none = some e
newer e (some b) = if ltb e.sequence_no b.sequence_no then some b else some e

-- `select(AuditLog).where(partition_key == key).order_by(sequence_no.desc()).limit(1)`.
unfoldable pub latest : String → List AuditLog → Option AuditLog
latest key [] = none
latest key (e ∷ rest) =
    let found = latest key rest in if str_eq e.partition_key key then newer e found else found

abbrev pub next_sequence : Option AuditLog → ℕ
next_sequence none = 1
next_sequence (some e) = e.sequence_no + 1

abbrev pub last_hash : Option AuditLog → String
last_hash none = genesis_hash
last_hash (some e) = e.entry_hash

-- `str(value) if value else None`.
abbrev uuid_or_null : Runtime → Option ℕ → Json
uuid_or_null rt none = null
uuid_or_null rt (some u) = text (rt.uuid_text u)

effective_actor_type : AuditCall → String
effective_actor_type c =
    text_or c.actor_type (elim c.principal [ some p ↦ p.auth_type | none ↦ "anonymous" ])

effective_actor_id : Runtime → AuditCall → String
effective_actor_id rt c = elim c.principal [
  | some p ↦ rt.uuid_text (get_or p.credential_id p.user_id)
  | none ↦ text_or c.actor_id "unknown"
]

abbrev token_owner : Runtime → Option Principal → Fields
token_owner rt none = end
token_owner rt (some p) =
    if str_eq p.auth_type "api_token"
    then field "authenticated_user_id" (text (rt.uuid_text p.user_id)) end
    else end

effective_metadata : Runtime → AuditCall → Fields
unfolding merge
effective_metadata rt c = merge c.metadata (token_owner rt c.principal)

-- The document of which an entry's hash is taken.
unfoldable pub canonical_audit_document : Runtime → AuditLog → Json
canonical_audit_document rt e = object (
    field "partition_key" (text e.partition_key) (
      field "sequence_no" (number e.sequence_no) (
        field "previous_hash" (text e.previous_hash) (
          field "tenant_id" (uuid_or_null rt e.tenant_id) (
            field "project_id" (uuid_or_null rt e.project_id) (
              field "actor_type" (text e.actor_type) (
                field "actor_id" (text e.actor_id) (
                  field "action" (text e.action) (
                    field "resource_type" (text e.resource_type) (
                      field "resource_id" (text_or_null e.resource_id) (
                        field "request_id" (text e.request_id) (
                          field "trace_id" (text e.trace_id) (
                            field "outcome" (text e.outcome) (
                              field "metadata" (object e.metadata_json) (
                                field "created_at" (text (rt.iso_text e.created_at))
                                  end)))))))))))))))

-- The payload of the outbox event that goes with an entry.
unfoldable pub event_payload : Runtime → AuditReadings → AuditCall → ℕ → String → AuditLog → Json
event_payload rt now c tenant event_type entry = object (
    field "event_id" (text (rt.uuid_text now.event_id)) (
      field "event_type" (text event_type) (
        field "event_version" (number 1) (
          field "occurred_at" (text (rt.iso_z_text now.occurred_at)) (
            field "tenant_id" (text (rt.uuid_text tenant)) (
              field "project_id" (uuid_or_null rt c.project_id) (
                field "producer" (text c.producer) (
                  field "trace_id" (text entry.trace_id) (
                    field "correlation_id" (text_or_null c.resource_id)
                      (field "data" (object data_fields) end))))))))))
  where
    data_fields : Fields
    data_fields = field "audit_id" (text (rt.uuid_text entry.id)) (
        field "actor_type" (text entry.actor_type) (
          field "actor_id" (text entry.actor_id) (
            field "resource_type" (text c.resource_type) (
              field "resource_id" (text_or_null c.resource_id)
                (field "outcome" (text c.outcome) (field "metadata" (object c.metadata) end))))))

unfoldable pub outbox_event : Runtime → AuditReadings → AuditCall → ℕ → AuditLog → EventOutbox
unfolding first_chars event_payload
outbox_event rt now c tenant entry =
    let event_type = first_chars 160 c.action in
    record {
      id = now.event_id;
      tenant_id = tenant;
      project_id = c.project_id;
      event_type = event_type;
      subject = "aiops.events.v1." ++ event_type;
      payload = event_payload rt now c tenant event_type entry;
      status = pending;
      attempts = 0;
      next_attempt_at = now.occurred_at;
      last_error = none;
      published_at = none;
      created_at = now.stored_at;
    }

-- The entry that follows `previous` in its partition.
unfoldable pub new_entry :
    Runtime → AuditReadings → RequestState → AuditCall → Option AuditLog → AuditLog
unfolding effective_tenant effective_actor_type effective_actor_id effective_metadata
new_entry rt now request c previous =
    let tenant = effective_tenant c in
    let key = partition_of rt tenant in
    let sequence = next_sequence previous in
    let previous_hash = last_hash previous in
    let actor_type = effective_actor_type c in
    let actor_id = effective_actor_id rt c in
    let metadata = effective_metadata rt c in
    let request_id = get_or request.request_id "unknown" in
    let trace_id = get_or request.trace_id "unknown" in
    let entry_hash = json_sha256 rt (
      object (
        field "partition_key" (text key) (
          field "sequence_no" (number sequence) (
            field "previous_hash" (text previous_hash) (
              field "tenant_id" (uuid_or_null rt tenant) (
                field "project_id" (uuid_or_null rt c.project_id) (
                  field "actor_type" (text actor_type) (
                    field "actor_id" (text actor_id) (
                      field "action" (text c.action) (
                        field "resource_type" (text c.resource_type) (
                          field "resource_id" (text_or_null c.resource_id) (
                            field "request_id" (text request_id) (
                              field "trace_id" (text trace_id) (
                                field "outcome" (text c.outcome) (
                                  field "metadata" (object metadata) (
                                    field "created_at" (text (rt.iso_text now.occurred_at))
                                      end)))))))))))))))) in
    record {
      id = now.entry_id;
      tenant_id = tenant;
      project_id = c.project_id;
      actor_type = actor_type;
      actor_id = actor_id;
      action = c.action;
      resource_type = c.resource_type;
      resource_id = c.resource_id;
      request_id = request_id;
      trace_id = trace_id;
      outcome = c.outcome;
      metadata_json = metadata;
      partition_key = key;
      sequence_no = sequence;
      previous_hash = previous_hash;
      entry_hash = entry_hash;
      archived_at = none;
      archive_object_ref = none;
      created_at = now.occurred_at;
    }

-- The advisory lock and `with_for_update` make calls of one partition take turns, so a call is one
-- step from a store to the next.
unfoldable pub append_audit :
    Runtime → AuditReadings → RequestState → AuditCall → AuditStore → AuditStore
unfolding effective_tenant latest new_entry outbox_event
append_audit rt now request c s =
    let tenant = effective_tenant c in
    let previous = latest (partition_of rt tenant) s.logs in
    let entry = new_entry rt now request c previous in
    record {
      logs = entry ∷ s.logs;
      outbox = elim tenant [ some t ↦ outbox_event rt now c t entry ∷ s.outbox | none ↦ s.outbox ];
    }
