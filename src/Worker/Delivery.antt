-- ===== src/Worker/Delivery.antt =====
-- What one run of `_publish_pending` (apps/worker/src/aiops_x_worker/tasks.py) does to the outbox,
-- and that its consumer accepts what `append_audit` puts there.
use mathlib.Core.List.{Memᴰ}
use native.Mathlib.Nat.{pow-succ'}
use Prim.Native.String.{String}
use aiops_x_enterprise_new.Prelude.{
  ℕ, ◌+◌, ◌≤◌, ◌<◌, ◌≡◌, Bool-cases, inl, inr, refl, true, false, Option, none, some, List, ◌∷◌,
  length, select, arith, ◌⊎◌, All, zero, suc, ◌^◌, contains,
}
use aiops_x_enterprise_new.Core.Runtime.{Runtime}
use aiops_x_enterprise_new.Audit.Models.{AuditLog, EventOutbox, AuditStore}
use aiops_x_enterprise_new.Audit.Append.{
  RequestState, AuditReadings, AuditCall, append_audit, outbox_event, event_payload,
  effective_tenant, new_entry, latest, partition_of,
}
use aiops_x_enterprise_new.Worker.Batch.{all_selected, member-map, batch_limit}
use aiops_x_enterprise_new.Worker.Outbox.{
  PublishRun, is_pending, is_due, in_batch, backoff, publish_row, publish_one, batch_of,
  publish_pending, validate_event_envelope,
}

-- Why a run does not touch a row: it has been published, it is not due yet, another worker has
-- locked
-- it, or it is not in the batch.
abbrev pub IsPassedOver : PublishRun → List ℕ → EventOutbox → Type 0
IsPassedOver run batch r =
    (is_pending r.status ≡ false)
    ⊎ ((run.now < r.next_attempt_at) ⊎ ((run.locked r ≡ true) ⊎ (contains r.id batch ≡ false)))

-- What a run does to a row, with the batch that it has fetched.
pub data Delivery (run : PublishRun) (batch : List ℕ) (r r' : EventOutbox) : Type 0 where
  passed_over : IsPassedOver run batch r → r' ≡ r → Delivery run batch r r'
  sent :
      is_pending r.status ≡ true
      → run.error r ≡ none
      → is_pending r'.status ≡ false
      → r'.published_at ≡ some (run.sent_at r)
      → r'.last_error ≡ none
      → Delivery run batch r r'
  put_off :
      (name : String)
      → is_pending r.status ≡ true
      → run.error r ≡ some name
      → is_pending r'.status ≡ true
      → r'.attempts ≡ r.attempts + 1
      → r'.last_error ≡ some name
      → run.sent_at r + 2 ≤ r'.next_attempt_at
      → r'.next_attempt_at ≤ run.sent_at r + 300
      → Delivery run batch r r'

-- How a row of the outbox may change in one run.
pub record IsDelivery (run : PublishRun) (batch : List ℕ) (r r' : EventOutbox) : Type 0 where
  pub same_id : r'.id ≡ r.id
  pub same_tenant : r'.tenant_id ≡ r.tenant_id
  pub same_subject : r'.subject ≡ r.subject
  pub same_payload : r'.payload ≡ r.payload
  pub same_creation : r'.created_at ≡ r.created_at
  pub outcome : Delivery run batch r r'

two_le_pow : (n : ℕ) → 2 ≤ 2 ^ suc n
two_le_pow zero = omega arith
two_le_pow (suc n) = omega (arith, two_le_pow n, pow-succ' 2 (suc n), pow-succ' 2 n)

backoff_bounds : (n : ℕ) → (2 ≤ backoff (n + 1)) × (backoff (n + 1) ≤ 300)
unfolding backoff
backoff_bounds n = ground (arith, two_le_pow n)

untouched :
    (run : PublishRun) (batch : List ℕ) (r : EventOutbox)
    → in_batch run batch r ≡ false
    → Delivery run batch r (publish_one run batch r)
untouched run batch r out = Delivery.passed_over (ground (arith, out)) (rw out refl)

handled :
    (run : PublishRun) (batch : List ℕ) (r : EventOutbox) (answer : Option String)
    → is_pending r.status ≡ true
    → run.error r ≡ answer
    → Delivery run batch r (publish_row run r)
unfolding publish_row
handled run batch r none waits e =
    Delivery.sent waits e (ground (arith, e)) (ground (arith, e)) (ground (arith, e))
handled run batch r (some name) waits e =
    Delivery.put_off name waits e (ground (arith, e)) (ground (arith, e)) (ground (arith, e))
      (ground (arith, e, backoff_bounds r.attempts)) (ground (arith, e, backoff_bounds r.attempts))

publish_one-Delivery :
    (run : PublishRun) (batch : List ℕ) (r : EventOutbox)
    → Delivery run batch r (publish_one run batch r)
publish_one-Delivery run batch r = elim (Bool-cases (in_batch run batch r)) [
  | inl chosen ↦ rw chosen (handled run batch r (run.error r) (ground (arith, chosen)) refl)
  | inr out ↦ untouched run batch r out
]

publish_one-IsDelivery :
    (run : PublishRun) (batch : List ℕ) (r : EventOutbox)
    → IsDelivery run batch r (publish_one run batch r)
unfolding publish_row
publish_one-IsDelivery run batch r = record {
  same_id = ground arith;
  same_tenant = ground arith;
  same_subject = ground arith;
  same_payload = ground arith;
  same_creation = ground arith;
  outcome = publish_one-Delivery run batch r;
}

-- In one run no event is lost: each row is still there with its identifier, tenant, subject,
-- payload
-- and instant of creation. Either the broker has taken its message, and the row is published at
-- that instant; or it has not, and the row stays pending, with one more attempt and the error, and
-- is due again after at least 2 and at most 300 seconds; or the row is left alone, since it has
-- been
-- published before, is not due, is locked by another worker, or is not in the batch.
pub no_event_lost :
    (run : PublishRun) (rows : List EventOutbox) (r : EventOutbox)
    → Memᴰ r rows
    → (r' : EventOutbox) × Memᴰ r' (publish_pending run rows).outbox
      × IsDelivery run (batch_of run rows) r r'
unfolding publish_pending
no_event_lost run rows r m =
    let batch = batch_of run rows in
    (
      publish_one run batch r,
      member-map (publish_one run batch) m,
      publish_one-IsDelivery run batch r,
    )

sent_row :
    (run : PublishRun) (batch : List ℕ) (r : EventOutbox)
    → is_due run r ≡ true
    → contains r.id batch ≡ true
    → run.error r ≡ none
    → let r' = publish_one run batch r in
      (r'.id ≡ r.id) × (is_pending r'.status ≡ false) × (r'.published_at ≡ some (run.sent_at r))
unfolding publish_row
sent_row run batch r due chosen taken = ground arith

-- When no more rows are due than one batch holds, each row that is due and whose message the broker
-- takes is published by the run.
pub due_published :
    (run : PublishRun) (rows : List EventOutbox) (r : EventOutbox)
    → length (select (is_due run) rows) ≤ batch_limit
    → Memᴰ r rows
    → is_due run r ≡ true
    → run.error r ≡ none
    → (r' : EventOutbox) × Memᴰ r' (publish_pending run rows).outbox
      × (r'.id ≡ r.id)
      × (is_pending r'.status ≡ false)
      × (r'.published_at ≡ some (run.sent_at r))
unfolding publish_pending
due_published run rows r fits m due taken =
    let batch = batch_of run rows in
    let chosen : contains r.id batch ≡ true =
      all_selected (λ (x : EventOutbox). x.id) (λ (x : EventOutbox). x.created_at) (is_due run) rows
        fits m due in
    let sent = sent_row run batch r due chosen taken in
    (publish_one run batch r, member-map (publish_one run batch) m, sent.0, sent.1, sent.2)

-- The consumer of the event stream accepts the payload.
abbrev pub IsDeliverable : EventOutbox → Type 0
IsDeliverable e = validate_event_envelope e.payload ≡ true

outbox_event-IsDeliverable :
    (rt : Runtime) (now : AuditReadings) (c : AuditCall) (tenant : ℕ) (entry : AuditLog)
    → IsDeliverable (outbox_event rt now c tenant entry)
unfolding outbox_event event_payload validate_event_envelope
outbox_event-IsDeliverable rt now c tenant entry = refl

with_event :
    (rt : Runtime) (now : AuditReadings) (c : AuditCall) (entry : AuditLog)
    (outbox : List EventOutbox) (tenant : Option ℕ)
    → All IsDeliverable outbox
    → All IsDeliverable
        (elim tenant [ some t ↦ outbox_event rt now c t entry ∷ outbox | none ↦ outbox ])
with_event rt now c entry outbox none h = h
with_event rt now c entry outbox (some t) h = (outbox_event-IsDeliverable rt now c t entry, h)

-- Whatever is audited, by whomever: if the consumer of the event stream accepts the payload of
-- every
-- row of the outbox, then it still does.
pub append_audit-IsDeliverable :
    (rt : Runtime) (now : AuditReadings) (request : RequestState) (c : AuditCall) (s : AuditStore)
    → All IsDeliverable s.outbox
    → All IsDeliverable (append_audit rt now request c s).outbox
unfolding append_audit
append_audit-IsDeliverable rt now request c s h =
    with_event rt now c
      (new_entry rt now request c (latest (partition_of rt (effective_tenant c)) s.logs)) s.outbox
      (effective_tenant c) h
