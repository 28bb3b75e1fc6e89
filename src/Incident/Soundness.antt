-- ===== src/Incident/Soundness.antt =====
-- The invariant of the incident tables, kept by every request to
-- apps/api/src/aiops_x_api/modules/incident/api.py.
use aiops_x_enterprise_new.Prelude.{
  ℕ, ◌==◌, ◌≡◌, refl, true, false, ◌&&◌, Option, none, some, List, [], ◌∷◌, arith, All, Bool-cases,
  inl, inr, subst, some_of,
}
use aiops_x_enterprise_new.Core.Errors.{ok}
use aiops_x_enterprise_new.Core.Patch.{given}
use aiops_x_enterprise_new.Core.Runtime.{Runtime}
use aiops_x_enterprise_new.Incident.Models.{
  Incident, IncidentPostmortem, PostmortemUpsert, IncidentCreate, IncidentUpdate, IncidentDb,
}
use aiops_x_enterprise_new.Incident.Policy.{
  validate_transition, is_final_text, approved_requires_content,
}
use aiops_x_enterprise_new.Incident.Effects.{IncidentCall, find_incident, put_incident}
use aiops_x_enterprise_new.Incident.Draft.{new_incident}
use aiops_x_enterprise_new.Incident.Update.{
  Columns, patched_columns, patched_incident, check_status, moved_incident, is_acknowledgement,
  is_resolution, is_closure,
}
use aiops_x_enterprise_new.Incident.Postmortem.{written, sealed, put_postmortem}
use aiops_x_enterprise_new.Incident.Outcomes.{UpdatesIncident}

-- An incident bears the instants of the states that it has been through.
pub record IsSoundIncident (c : Incident) : Type 0 where
  pub acknowledgement : is_acknowledgement c.status ≡ true → given c.acknowledged_at ≡ true
  pub resolution : is_resolution c.status ≡ true → given c.resolved_at ≡ true
  pub closure : is_closure c.status ≡ given c.closed_at
  pub resolved_first : is_closure c.status ≡ true → given c.resolved_at ≡ true

-- A postmortem has an approver exactly if it is approved or published, and its content is complete.
pub record IsSoundPostmortem (rt : Runtime) (p : IncidentPostmortem) : Type 0 where
  pub approver : given p.approved_by ≡ is_final_text p.content.status
  pub approval : given p.approved_at ≡ is_final_text p.content.status
  pub content : approved_requires_content rt p.content ≡ ok tt

-- No incident has two postmortems.
abbrev pub OnePostmortem : List IncidentPostmortem → Type 0
OnePostmortem [] = Unit
OnePostmortem (p ∷ ps) =
    (some_of (λ (x : IncidentPostmortem). x.incident_id == p.incident_id) ps ≡ false)
    × OnePostmortem ps

pub record IsSoundIncidents (rt : Runtime) (s : IncidentDb) : Type 0 where
  pub incidents : All IsSoundIncident s.incidents
  pub postmortems : All (IsSoundPostmortem rt) s.postmortems
  pub one_each : OnePostmortem s.postmortems

pub find_incident-IsSound :
    (tenant id : ℕ) (xs : List Incident) {c : Incident}
    → find_incident tenant id xs ≡ some c
    → All IsSoundIncident xs
    → IsSoundIncident c
find_incident-IsSound tenant id [] e h = cc
find_incident-IsSound tenant id (x ∷ xs) {c} e h =
    elim (Bool-cases (x.id == id && x.tenant_id == tenant)) [
      | inl here ↦ let same : x ≡ c = ground arith in subst IsSoundIncident same h.0
      | inr there ↦ find_incident-IsSound tenant id xs (rw there at e) h.1
    ]

pub put_incident-All :
    (c : Incident) (xs : List Incident)
    → IsSoundIncident c
    → All IsSoundIncident xs
    → All IsSoundIncident (put_incident c xs)
unfolding put_incident
put_incident-All c [] new h = tt
put_incident-All c (x ∷ xs) new h = elim (Bool-cases (x.id == c.id)) [
  | inl same ↦ rw same (new, put_incident-All c xs new h.1)
  | inr other ↦ rw other (h.0, put_incident-All c xs new h.1)
]

pub new_incident-IsSound :
    (call : IncidentCall) (p : IncidentCreate) → IsSoundIncident (new_incident call p)
unfolding new_incident
new_incident-IsSound call p = record {
  acknowledgement = λ e. cc;
  resolution = λ e. cc;
  closure = refl;
  resolved_first = λ e. cc;
}

-- The state in the patched row is one that the transition table allows.
patched_status :
    (u : IncidentUpdate) (c : Incident) (columns : Columns)
    → check_status u.status c.status ≡ ok tt
    → patched_columns u c ≡ ok columns
    → validate_transition c.status columns.status ≡ ok tt
unfolding patched_columns validate_transition
patched_status u c columns a k = ground arith

moved-IsSoundIncident :
    (now : ℕ) (c new : Incident)
    → validate_transition c.status new.status ≡ ok tt
    → new.acknowledged_at ≡ c.acknowledged_at
    → new.resolved_at ≡ c.resolved_at
    → new.closed_at ≡ c.closed_at
    → IsSoundIncident c
    → IsSoundIncident (moved_incident now c.status new)
unfolding moved_incident validate_transition
moved-IsSoundIncident now c new v a r l h = ground arith

pub updated-IsSound :
    (call : IncidentCall) (u : IncidentUpdate) (id : ℕ) (s s' : IncidentDb) (c new c' : Incident)
    → UpdatesIncident call u id s s' c new c'
    → IsSoundIncident c
    → IsSoundIncident c'
unfolding patched_incident
updated-IsSound call u id s s' c new c' w h = rw w.row (
    moved-IsSoundIncident call.readings.now c new
      (rw w.patched (patched_status u c w.columns w.allowed w.columns_ok)) (rw w.patched refl)
      (rw w.patched refl) (rw w.patched refl) h)

pub written-IsSound :
    (call : IncidentCall) (p : PostmortemUpsert) (c : Incident) (old : Option IncidentPostmortem)
    → approved_requires_content call.runtime p ≡ ok tt
    → IsSoundPostmortem call.runtime (sealed call (written call p c old))
unfolding written sealed
written-IsSound call p c none k = ground arith
written-IsSound call p c (some x) k = ground arith

pub put_postmortem-All :
    (P : IncidentPostmortem → Type 0) (p : IncidentPostmortem) (xs : List IncidentPostmortem)
    → P p
    → All P xs
    → All P (put_postmortem p xs)
unfolding put_postmortem
put_postmortem-All P p [] new h = (new, tt)
put_postmortem-All P p (x ∷ xs) new h = elim (Bool-cases (x.incident_id == p.incident_id)) [
  | inl same ↦ rw same (new, h.1)
  | inr other ↦ rw other (h.0, put_postmortem-All P p xs new h.1)
]

put_postmortem_others :
    (p : IncidentPostmortem) (i : ℕ) (xs : List IncidentPostmortem)
    → (p.incident_id == i) ≡ false
    → some_of (λ (x : IncidentPostmortem). x.incident_id == i) xs ≡ false
    → some_of (λ (x : IncidentPostmortem). x.incident_id == i) (put_postmortem p xs) ≡ false
unfolding put_postmortem
put_postmortem_others p i [] ne h = ground arith
put_postmortem_others p i (x ∷ xs) ne h = ground (arith, put_postmortem_others p i xs)

pub put_postmortem-OnePostmortem :
    (p : IncidentPostmortem) (xs : List IncidentPostmortem)
    → OnePostmortem xs
    → OnePostmortem (put_postmortem p xs)
unfolding put_postmortem
put_postmortem-OnePostmortem p [] h = (refl, tt)
put_postmortem-OnePostmortem p (x ∷ xs) h = elim (Bool-cases (x.incident_id == p.incident_id)) [
  | inl same ↦
      let at_p : x.incident_id ≡ p.incident_id = ground arith in
      rw same (
        subst (λ i. some_of (λ (y : IncidentPostmortem). y.incident_id == i) xs ≡ false) at_p h.0,
        h.1,
      )
  | inr other ↦
      let apart : (p.incident_id == x.incident_id) ≡ false = ground arith in
      rw other
        (put_postmortem_others p x.incident_id xs apart h.0, put_postmortem-OnePostmortem p xs h.1)
]
