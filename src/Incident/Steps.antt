-- ===== src/Incident/Steps.antt =====
-- The requests to apps/api/src/aiops_x_api/modules/incident/api.py, one after the other, and that
-- each keeps the invariant of the tables.
use aiops_x_enterprise_new.Prelude.{ℕ, ◌≡◌, refl, [], subst}
use aiops_x_enterprise_new.Core.Errors.{Result, ok, err}
use aiops_x_enterprise_new.Core.Runtime.{Runtime}
use aiops_x_enterprise_new.References.{Directory}
use aiops_x_enterprise_new.Audit.Models.{AuditStore}
use aiops_x_enterprise_new.Incident.Models.{
  Incident, IncidentPostmortem, PostmortemUpsert, IncidentCreate, IncidentUpdate,
  TimelineEntryCreate, IncidentDb,
}
use aiops_x_enterprise_new.Incident.Effects.{IncidentCall, postmortem_of, finish}
use aiops_x_enterprise_new.Incident.Draft.{
  create_incident_tx, create_incident, add_timeline_entry_tx, add_timeline_entry,
}
use aiops_x_enterprise_new.Incident.Update.{update_incident_tx, update_incident}
use aiops_x_enterprise_new.Incident.Postmortem.{upsert_postmortem_tx, upsert_postmortem}
use aiops_x_enterprise_new.Incident.Outcomes.{
  create_incident_tx-ok, update_incident_tx-ok, upsert_postmortem_tx-ok, add_timeline_entry_tx-ok,
}
use aiops_x_enterprise_new.Incident.Soundness.{
  IsSoundPostmortem, IsSoundIncidents, find_incident-IsSound, put_incident-All,
  new_incident-IsSound, updated-IsSound, written-IsSound, put_postmortem-All,
  put_postmortem-OnePostmortem,
}

-- One request to the module, by any caller, whether it succeeds or not.
pub data IncidentStep (rt : Runtime) (s : IncidentDb) : IncidentDb → Type 0 where
  create :
      (call : IncidentCall) (dir : Directory) (p : IncidentCreate)
      → call.runtime ≡ rt
      → IncidentStep rt s (create_incident call dir p s).1
  update :
      (call : IncidentCall) (dir : Directory) (id : ℕ) (u : IncidentUpdate)
      → call.runtime ≡ rt
      → IncidentStep rt s (update_incident call dir id u s).1
  annotate :
      (call : IncidentCall) (dir : Directory) (id : ℕ) (p : TimelineEntryCreate)
      → call.runtime ≡ rt
      → IncidentStep rt s (add_timeline_entry call dir id p s).1
  write :
      (call : IncidentCall) (dir : Directory) (id : ℕ) (p : PostmortemUpsert)
      → call.runtime ≡ rt
      → IncidentStep rt s (upsert_postmortem call dir id p s).1

-- Any number of requests, one after the other.
pub data Runs (rt : Runtime) (s : IncidentDb) : IncidentDb → Type 0 where
  here : Runs rt s s
  next : {t u : IncidentDb} → Runs rt s t → IncidentStep rt t u → Runs rt s u

-- A transaction that is rolled back changes nothing.
pub finish-keeps {ℓ κ μ} :
    {A : Type ℓ} {B : Type κ} (P : IncidentDb → Type μ) (respond : A → Result B)
    (r : Result (A × IncidentDb)) (s : IncidentDb)
    → ((a : A) (s' : IncidentDb) → r ≡ ok (a, s') → P s')
    → P s
    → P (finish respond r s).1
unfolding finish
finish-keeps P respond (err e) s keep h = h
finish-keeps P respond (ok (a, s')) s keep h = keep a s' refl

create-IsSoundIncidents :
    (rt : Runtime) (call : IncidentCall) (dir : Directory) (p : IncidentCreate) (s s' : IncidentDb)
    (c' : Incident)
    → create_incident_tx call dir p s ≡ ok (c', s')
    → IsSoundIncidents rt s
    → IsSoundIncidents rt s'
create-IsSoundIncidents rt call dir p s s' c' e h =
    let w = create_incident_tx-ok call dir p s s' c' e in
    record {
      incidents = rw (w.incidents, w.row) (new_incident-IsSound call p, h.incidents);
      postmortems = rw w.postmortems h.postmortems;
      one_each = rw w.postmortems h.one_each;
    }

update-IsSoundIncidents :
    (rt : Runtime) (call : IncidentCall) (dir : Directory) (id : ℕ) (u : IncidentUpdate)
    (s s' : IncidentDb) (c' : Incident)
    → update_incident_tx call dir id u s ≡ ok (c', s')
    → IsSoundIncidents rt s
    → IsSoundIncidents rt s'
update-IsSoundIncidents rt call dir id u s s' c' e h =
    let (c, new, w) = update_incident_tx-ok call dir id u s s' c' e in
    let old = find_incident-IsSound call.principal.tenant_id id s.incidents w.found h.incidents in
    record {
      incidents = rw w.incidents (
          put_incident-All c' s.incidents (updated-IsSound call u id s s' c new c' w old)
            h.incidents);
      postmortems = rw w.postmortems h.postmortems;
      one_each = rw w.postmortems h.one_each;
    }

write-IsSoundIncidents :
    (rt : Runtime) (call : IncidentCall) (dir : Directory) (id : ℕ) (p : PostmortemUpsert)
    (s s' : IncidentDb) (x : IncidentPostmortem)
    → call.runtime ≡ rt
    → upsert_postmortem_tx call dir id p s ≡ ok (x, s')
    → IsSoundIncidents rt s
    → IsSoundIncidents rt s'
write-IsSoundIncidents rt call dir id p s s' x same e h =
    let (c, w) = upsert_postmortem_tx-ok call dir id p s s' x e in
    let new : IsSoundPostmortem rt x =
      subst (λ r. IsSoundPostmortem r x) same
        (rw w.row (written-IsSound call p c (postmortem_of c.id s.postmortems) w.content)) in
    record {
      incidents = rw w.incidents h.incidents;
      postmortems =
          rw w.postmortems
            (put_postmortem-All (IsSoundPostmortem rt) x s.postmortems new h.postmortems);
      one_each = rw w.postmortems (put_postmortem-OnePostmortem x s.postmortems h.one_each);
    }

-- Every request keeps the invariant of the tables: each incident bears the instants of its states,
-- a postmortem has an approver exactly if it is approved or published, its content is complete, and
-- no incident has two.
pub IncidentStep-IsSound :
    {rt : Runtime} {s t : IncidentDb}
    → IncidentStep rt s t
    → IsSoundIncidents rt s
    → IsSoundIncidents rt t
unfolding create_incident update_incident add_timeline_entry upsert_postmortem
IncidentStep-IsSound {rt} {s} (create call dir p same) h =
    finish-keeps (IsSoundIncidents rt) _ (create_incident_tx call dir p s) s
      (λ c s' e. create-IsSoundIncidents rt call dir p s s' c e h) h
IncidentStep-IsSound {rt} {s} (update call dir id u same) h =
    finish-keeps (IsSoundIncidents rt) _ (update_incident_tx call dir id u s) s
      (λ c s' e. update-IsSoundIncidents rt call dir id u s s' c e h) h
IncidentStep-IsSound {rt} {s} (annotate call dir id p same) h =
    finish-keeps (IsSoundIncidents rt) _ (add_timeline_entry_tx call dir id p s) s
      (λ x s' e.
        let (keeps, keeps_too) = add_timeline_entry_tx-ok call dir id p s s' x e in
        record {
          incidents = rw keeps h.incidents;
          postmortems = rw keeps_too h.postmortems;
          one_each = rw keeps_too h.one_each;
        })
      h
IncidentStep-IsSound {rt} {s} (write call dir id p same) h =
    finish-keeps (IsSoundIncidents rt) _ (upsert_postmortem_tx call dir id p s) s
      (λ x s' e. write-IsSoundIncidents rt call dir id p s s' x same e h) h

pub Runs-IsSound :
    {rt : Runtime} {s t : IncidentDb} → Runs rt s t → IsSoundIncidents rt s → IsSoundIncidents rt t
Runs-IsSound here h = h
Runs-IsSound (next r st) h = IncidentStep-IsSound st (Runs-IsSound r h)

abbrev pub no_incidents : AuditStore → IncidentDb
no_incidents audit = record { incidents = []; timeline = []; postmortems = []; audit = audit }

pub no_incidents-IsSound :
    (rt : Runtime) (audit : AuditStore) → IsSoundIncidents rt (no_incidents audit)
no_incidents-IsSound rt audit = record { incidents = tt; postmortems = tt; one_each = tt }
