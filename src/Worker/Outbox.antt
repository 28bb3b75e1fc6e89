-- ===== src/Worker/Outbox.antt =====
-- apps/worker/src/aiops_x_worker/tasks.py: `_publish_pending` and `_validate_event_envelope`. The
-- broker is a parameter: what it answers to the message of a row.
use Prim.Native.String.{String}
use aiops_x_enterprise_new.Prelude.{
  ℕ, ◌+◌, ◌^◌, Bool, true, false, not, ◌&&◌, Option, none, some, List, [], ◌∷◌, map, leb, ◌==◌,
  length, select, contains, all_of, if◌then◌else◌, str_eq,
}
use aiops_x_enterprise_new.Core.Json.{Json, Fields, end, field}
use aiops_x_enterprise_new.Audit.Models.{EventOutbox, OutboxStatus}
use aiops_x_enterprise_new.Worker.Batch.{oldest}

pub record PublishRun : Type 0 where
  pub now : ℕ
  -- The rows that another worker has locked.
  pub locked : EventOutbox → Bool
  -- `type(error).__name__` if publishing the row fails.
  pub error : EventOutbox → Option String
  -- The clock when the row has been sent.
  pub sent_at : EventOutbox → ℕ

abbrev pub is_pending : OutboxStatus → Bool
is_pending OutboxStatus.pending = true
is_pending OutboxStatus.published = false

abbrev pub is_due : PublishRun → EventOutbox → Bool
is_due run r = is_pending r.status && (leb r.next_attempt_at run.now && not (run.locked r))

-- `min(2**row.attempts, 300)`, in seconds.
unfoldable pub backoff : ℕ → ℕ
backoff attempts = if leb (2 ^ attempts) 300 then 2 ^ attempts else 300

-- One turn of the loop.
unfoldable pub publish_row : PublishRun → EventOutbox → EventOutbox
unfolding backoff
publish_row run r = elim (run.error r) [
  | none ↦ record r {
    status = OutboxStatus.published;
    published_at = some (run.sent_at r);
    last_error = none;
  }
  | some name ↦ record r {
    attempts = r.attempts + 1;
    last_error = some name;
    next_attempt_at = run.sent_at r + backoff (r.attempts + 1);
  }
]

abbrev pub batch_of : PublishRun → List EventOutbox → List ℕ
batch_of run rows =
    oldest (λ (r : EventOutbox). r.id) (λ (r : EventOutbox). r.created_at) (is_due run) rows

abbrev pub in_batch : PublishRun → List ℕ → EventOutbox → Bool
in_batch run batch r = is_due run r && contains r.id batch

abbrev pub publish_one : PublishRun → List ℕ → EventOutbox → EventOutbox
publish_one run batch r = if in_batch run batch r then publish_row run r else r

abbrev succeeds : PublishRun → EventOutbox → Bool
succeeds run r = elim (run.error r) [ none ↦ true | some name ↦ false ]

-- The table after the run, and the counters and the gauge that the run reports.
pub record PublishResult : Type 0 where
  pub outbox : List EventOutbox
  pub published : ℕ
  pub failed : ℕ
  pub pending : ℕ

unfoldable pub publish_pending : PublishRun → List EventOutbox → PublishResult
unfolding publish_row oldest
publish_pending run rows =
    let batch = batch_of run rows in
    let outbox = map (publish_one run batch) rows in
    record {
      outbox = outbox;
      published = length (select (λ r. in_batch run batch r && succeeds run r) rows);
      failed = length (select (λ r. in_batch run batch r && not (succeeds run r)) rows);
      pending = length (select (λ (r : EventOutbox). is_pending r.status) outbox);
    }

-- `payload.get(key)`, the last of the values under a key.
abbrev pub get_field : String → Fields → Option Json
get_field key end = none
get_field key (field k v rest) =
    let later = get_field key rest in
    elim later [ some w ↦ some w | none ↦ if str_eq k key then some v else none ]

abbrev has_field : Fields → String → Bool
has_field payload key = elim (get_field key payload) [ none ↦ false | some v ↦ true ]

-- `payload.get("event_version") == 1`; `True` equals 1.
abbrev is_version_one : Option Json → Bool
is_version_one (some (Json.boolean b)) = b
is_version_one (some (Json.number n)) = n == 1
is_version_one _ = false

abbrev is_object : Option Json → Bool
is_object (some (Json.object fields)) = true
is_object _ = false

-- Whether the consumer accepts the payload of a message.
unfoldable pub validate_event_envelope : Json → Bool
validate_event_envelope (Json.object payload) =
    all_of (has_field payload) (
      "event_id" ∷ "event_type" ∷ "event_version" ∷ "occurred_at" ∷ "tenant_id" ∷ "producer"
      ∷ "trace_id" ∷ "data" ∷ [])
    && (is_version_one (get_field "event_version" payload) && is_object (get_field "data" payload))
validate_event_envelope _ = false
