-- ===== src/Incident/Closing.antt =====
-- When an update closes an incident
-- (apps/api/src/aiops_x_api/modules/incident/api.py).
use mathlib.Core.List.{Memᴰ}
use aiops_x_enterprise_new.Prelude.{
  ℕ, ◌==◌, ◌≡◌, refl, sym, ap, ◌∙◌, Bool, true, false, not, ◌&&◌, some, List, [], ◌∷◌, arith, All,
  Bool-cases, inl, inr, false≢true,
}
use aiops_x_enterprise_new.Core.Errors.{ok}
use aiops_x_enterprise_new.Core.Patch.{given, filled}
use aiops_x_enterprise_new.Core.Runtime.{Runtime}
use aiops_x_enterprise_new.References.{Directory}
use aiops_x_enterprise_new.Audit.Models.{AuditStore}
use aiops_x_enterprise_new.Incident.Models.{
  Incident, IncidentPostmortem, IncidentUpdate, IncidentDb,
}
use aiops_x_enterprise_new.Incident.Policy.{is_final_text, has_words, approved_requires_content}
use aiops_x_enterprise_new.Incident.Effects.{IncidentCall, find_incident}
use aiops_x_enterprise_new.Incident.Update.{
  Columns, is_closure, is_move, moved_incident, patched_incident, has_approved_postmortem,
  update_incident_tx,
}
use aiops_x_enterprise_new.Incident.Outcomes.{update_incident_tx-ok}
use aiops_x_enterprise_new.Incident.Soundness.{IsSoundPostmortem}
use aiops_x_enterprise_new.Incident.Steps.{Runs, Runs-IsSound, no_incidents, no_incidents-IsSound}

-- A postmortem of the incident that somebody has approved, with its summary, its root cause and
-- what is to be done.
pub record IsReviewed (rt : Runtime) (incident : ℕ) (p : IncidentPostmortem) : Type 0 where
  pub about : p.incident_id ≡ incident
  pub approver : given p.approved_by ≡ true
  pub summary : has_words rt p.content.summary ≡ true
  pub root_cause : has_words rt p.content.root_cause ≡ true
  pub actions : filled (some p.content.action_items) ≡ true

approved-IsReviewed :
    (rt : Runtime) (i : ℕ) (p : IncidentPostmortem)
    → (p.incident_id == i && is_final_text p.content.status) ≡ true
    → IsSoundPostmortem rt p
    → IsReviewed rt i p
unfolding approved_requires_content
approved-IsReviewed rt i p e h = ground arith

approved_member :
    (rt : Runtime) (i : ℕ) (ps : List IncidentPostmortem)
    → has_approved_postmortem i ps ≡ true
    → All (IsSoundPostmortem rt) ps
    → (p : IncidentPostmortem) × Memᴰ p ps × IsReviewed rt i p
approved_member rt i [] e h = absurd (false≢true e)
approved_member rt i (x ∷ ps) e h =
    elim (Bool-cases (x.incident_id == i && is_final_text x.content.status)) [
      | inl this ↦ (x, Memᴰ.head refl, approved-IsReviewed rt i x this h.0)
      | inr that ↦ let (p, m, k) = approved_member rt i ps (rw that at e) h.1 in (p, Memᴰ.tail m, k)
    ]

-- A move into the state `closed` has found an approved postmortem.
closing_found :
    (now : ℕ) (c new : Incident) (found : Bool)
    → (is_move c.status new && (is_closure new.status && not found)) ≡ false
    → is_closure (moved_incident now c.status new).status ≡ true
    → is_closure c.status ≡ false
    → found ≡ true
unfolding moved_incident
closing_found now c new found a e k = ground arith

id-patched :
    (new c : Incident) (u : IncidentUpdate) (columns : Columns)
    → new ≡ patched_incident u columns c
    → new.id ≡ c.id
unfolding patched_incident
id-patched new c u columns e = rw e refl

-- After any requests to empty tables: when an update closes an incident that was not closed, there
-- is a postmortem of that incident which somebody has approved and which has a summary, a root
-- cause and action items.
pub closed_after_review :
    (rt : Runtime) (audit : AuditStore) (s s' : IncidentDb) (call : IncidentCall) (dir : Directory)
    (id : ℕ) (u : IncidentUpdate) (c c' : Incident)
    → Runs rt (no_incidents audit) s
    → update_incident_tx call dir id u s ≡ ok (c', s')
    → find_incident call.principal.tenant_id id s.incidents ≡ some c
    → is_closure c.status ≡ false
    → is_closure c'.status ≡ true
    → (p : IncidentPostmortem) × Memᴰ p s.postmortems × IsReviewed rt c.id p
closed_after_review rt audit s s' call dir id u c c' r e found before after =
    let inv = Runs-IsSound r (no_incidents-IsSound rt audit) in
    let (c0, new, w) = update_incident_tx-ok call dir id u s s' c' e in
    let same : c0 ≡ c = cc (w.found, found) in
    let named : new.id ≡ c.id =
      id-patched new c0 u w.columns w.patched ∙ ap (λ (x : Incident). x.id) same in
    let approved : has_approved_postmortem new.id s.postmortems ≡ true =
      closing_found call.readings.now c0 new (has_approved_postmortem new.id s.postmortems)
        w.approved (sym (ap (λ (x : Incident). is_closure x.status) w.row) ∙ after)
        (ap (λ (x : Incident). is_closure x.status) same ∙ before) in
    approved_member rt c.id s.postmortems (rw named at approved) inv.postmortems
