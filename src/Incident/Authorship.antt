-- ===== src/Incident/Authorship.antt =====
-- Who is the author of a postmortem, and who may approve it (`upsert_postmortem` of
-- apps/api/src/aiops_x_api/modules/incident/api.py).
use mathlib.Core.List.{Memᴰ}
use aiops_x_enterprise_new.Prelude.{
  ℕ, ◌==◌, ==_refl, ◌≡◌, refl, sym, ap, ◌∙◌, true, false, Option, none, some, List, [], ◌∷◌, arith,
  some_of, Bool-cases, inl, inr, ◌⊎◌, subst,
}
use aiops_x_enterprise_new.Core.Errors.{ok}
use aiops_x_enterprise_new.Core.Runtime.{Runtime}
use aiops_x_enterprise_new.References.{Directory}
use aiops_x_enterprise_new.Audit.Models.{AuditStore}
use aiops_x_enterprise_new.Incident.Models.{
  Incident, IncidentPostmortem, PostmortemUpsert, IncidentDb,
}
use aiops_x_enterprise_new.Incident.Policy.{is_final_text}
use aiops_x_enterprise_new.Incident.Effects.{IncidentCall, find_incident, postmortem_of}
use aiops_x_enterprise_new.Incident.Draft.{
  create_incident_tx, create_incident, add_timeline_entry_tx, add_timeline_entry,
}
use aiops_x_enterprise_new.Incident.Update.{update_incident_tx, update_incident}
use aiops_x_enterprise_new.Incident.Postmortem.{
  may, written, sealed, check_approval, put_postmortem, upsert_postmortem_tx, upsert_postmortem,
}
use aiops_x_enterprise_new.Incident.Outcomes.{
  create_incident_tx-ok, update_incident_tx-ok, upsert_postmortem_tx-ok, add_timeline_entry_tx-ok,
}
use aiops_x_enterprise_new.Incident.Soundness.{OnePostmortem}
use aiops_x_enterprise_new.Incident.Steps.{
  IncidentStep, create, update, annotate, write, Runs, here, next, finish-keeps, Runs-IsSound,
  no_incidents, no_incidents-IsSound,
}

-- The same postmortem, of the same incident and by the same author.
pub record SameAuthor (x y : IncidentPostmortem) : Type 0 where
  pub id : y.id ≡ x.id
  pub incident : y.incident_id ≡ x.incident_id
  pub author : y.created_by ≡ x.created_by

SameAuthor-trans : {x y z : IncidentPostmortem} → SameAuthor x y → SameAuthor y z → SameAuthor x z
SameAuthor-trans a b = record {
  id = b.id ∙ a.id;
  incident = b.incident ∙ a.incident;
  author = b.author ∙ a.author;
}

abbrev Keeps : IncidentPostmortem → IncidentDb → Type 0
Keeps x s = (y : IncidentPostmortem) × Memᴰ y s.postmortems × SameAuthor x y

put_postmortem-cases :
    (w x : IncidentPostmortem) (xs : List IncidentPostmortem)
    → Memᴰ x xs
    → Memᴰ x (put_postmortem w xs)
      ⊎ ((postmortem_of w.incident_id xs ≡ some x) × Memᴰ w (put_postmortem w xs))
unfolding put_postmortem
put_postmortem-cases w x [] m = elim m [ ]
put_postmortem-cases w x (z ∷ xs) m = elim (Bool-cases (z.incident_id == w.incident_id)) [
  | inl same ↦ elim m [
    | Memᴰ.head e ↦ inr (rw (same, e) refl, rw same (Memᴰ.head refl))
    | Memᴰ.tail n ↦ inl (rw same (Memᴰ.tail n))
  ]
  | inr other ↦ elim m [
    | Memᴰ.head e ↦ inl (rw other (Memᴰ.head e))
    | Memᴰ.tail n ↦ elim (put_postmortem-cases w x xs n) [
      | inl kept ↦ inl (rw other (Memᴰ.tail kept))
      | inr (found, new) ↦ inr (rw other found, rw other (Memᴰ.tail new))
    ]
  ]
]

incident-found :
    (i : ℕ) (xs : List IncidentPostmortem) {x : IncidentPostmortem}
    → postmortem_of i xs ≡ some x
    → x.incident_id ≡ i
incident-found i [] h = cc
incident-found i (z ∷ xs) {x} h = ground (arith, incident-found i xs {x = x})

id-found :
    (tenant i : ℕ) (xs : List Incident) {c : Incident}
    → find_incident tenant i xs ≡ some c
    → c.id ≡ i
id-found tenant i [] h = cc
id-found tenant i (z ∷ xs) {c} h = ground (arith, id-found tenant i xs {c = c})

-- The row that a request writes is of its incident, and keeps the author of the row before.
rewritten :
    (call : IncidentCall) (p : PostmortemUpsert) (c : Incident) (x : IncidentPostmortem)
    → SameAuthor x (sealed call (written call p c (some x)))
unfolding sealed written
rewritten call p c x = record { id = ground arith; incident = ground arith; author = ground arith }

of_incident :
    (call : IncidentCall) (p : PostmortemUpsert) (c : Incident) (o : Option IncidentPostmortem)
    → ((x : IncidentPostmortem) → o ≡ some x → x.incident_id ≡ c.id)
    → (sealed call (written call p c o)).incident_id ≡ c.id
unfolding sealed written
of_incident call p c none h = ground arith
of_incident call p c (some x) h = (rewritten call p c x).incident ∙ h x refl

write-Keeps :
    (call : IncidentCall) (dir : Directory) (id : ℕ) (p : PostmortemUpsert) (s s' : IncidentDb)
    (w x : IncidentPostmortem)
    → upsert_postmortem_tx call dir id p s ≡ ok (w, s')
    → Memᴰ x s.postmortems
    → Keeps x s'
write-Keeps call dir id p s s' w x e m =
    let (c, facts) = upsert_postmortem_tx-ok call dir id p s s' w e in
    let before = postmortem_of c.id s.postmortems in
    let own : w.incident_id ≡ c.id =
      ap (λ (y : IncidentPostmortem). y.incident_id) facts.row
      ∙ of_incident call p c before (λ y h. incident-found c.id s.postmortems h) in
    elim (put_postmortem-cases w x s.postmortems m) [
      | inl kept ↦
          (x, rw facts.postmortems kept, record { id = refl; incident = refl; author = refl })
      | inr (found, new) ↦
          let old : before ≡ some x = ap (λ i. postmortem_of i s.postmortems) (sym own) ∙ found in
          let same : w ≡ sealed call (written call p c (some x)) =
            facts.row ∙ ap (λ o. sealed call (written call p c o)) old in
          (w, rw facts.postmortems new, subst (SameAuthor x) (sym same) (rewritten call p c x))
    ]

stays :
    (x : IncidentPostmortem) (s s' : IncidentDb)
    → s'.postmortems ≡ s.postmortems
    → Memᴰ x s.postmortems
    → Keeps x s'
stays x s s' e m = (x, rw e m, record { id = refl; incident = refl; author = refl })

IncidentStep-Keeps :
    {rt : Runtime} {s t : IncidentDb} (x : IncidentPostmortem)
    → IncidentStep rt s t
    → Memᴰ x s.postmortems
    → Keeps x t
unfolding create_incident update_incident add_timeline_entry upsert_postmortem
IncidentStep-Keeps {rt} {s} x (create call dir p same) m =
    finish-keeps (Keeps x) _ (create_incident_tx call dir p s) s
      (λ c s' e. stays x s s' (create_incident_tx-ok call dir p s s' c e).postmortems m)
      (stays x s s refl m)
IncidentStep-Keeps {rt} {s} x (update call dir id u same) m =
    finish-keeps (Keeps x) _ (update_incident_tx call dir id u s) s
      (λ c s' e.
        let (c0, new, w) = update_incident_tx-ok call dir id u s s' c e in
        stays x s s' w.postmortems m)
      (stays x s s refl m)
IncidentStep-Keeps {rt} {s} x (annotate call dir id p same) m =
    finish-keeps (Keeps x) _ (add_timeline_entry_tx call dir id p s) s
      (λ c s' e. stays x s s' (add_timeline_entry_tx-ok call dir id p s s' c e).1 m)
      (stays x s s refl m)
IncidentStep-Keeps {rt} {s} x (write call dir id p same) m =
    finish-keeps (Keeps x) _ (upsert_postmortem_tx call dir id p s) s
      (λ w s' e. write-Keeps call dir id p s s' w x e m) (stays x s s refl m)

Runs-Keeps :
    {rt : Runtime} {s t : IncidentDb} (x : IncidentPostmortem)
    → Runs rt s t
    → Memᴰ x s.postmortems
    → Keeps x t
Runs-Keeps {rt} {s} x here m = stays x s s refl m
Runs-Keeps x (next earlier step) m =
    let (y, there, same) = Runs-Keeps x earlier m in
    let (z, later, alike) = IncidentStep-Keeps y step there in
    (z, later, SameAuthor-trans same alike)

Runs-join : {rt : Runtime} {s t u : IncidentDb} → Runs rt s t → Runs rt t u → Runs rt s u
Runs-join first here = first
Runs-join first (next later step) = next (Runs-join first later) step

others_fail :
    (i : ℕ) (xs : List IncidentPostmortem) (y : IncidentPostmortem)
    → some_of (λ (x : IncidentPostmortem). x.incident_id == i) xs ≡ false
    → Memᴰ y xs
    → (y.incident_id == i) ≡ false
others_fail i [] y h m = elim m [ ]
others_fail i (z ∷ xs) y h m = elim m [
  | Memᴰ.head e ↦ rw e (ground (arith, h))
  | Memᴰ.tail n ↦ others_fail i xs y (ground (arith, h)) n
]

only_one :
    (xs : List IncidentPostmortem) (y : IncidentPostmortem)
    → OnePostmortem xs
    → Memᴰ y xs
    → postmortem_of y.incident_id xs ≡ some y
only_one [] y h m = elim m [ ]
only_one (z ∷ xs) y h m = elim m [
  | Memᴰ.head e ↦ rw e (ground (arith, ==_refl z.incident_id))
  | Memᴰ.tail n ↦
      let apart = others_fail z.incident_id xs y h.0 n in
      let found = only_one xs y h.1 n in ground (arith, apart, found)
]

approved_row :
    (call : IncidentCall) (draft x : IncidentPostmortem)
    → x ≡ sealed call draft
    → check_approval call.principal draft ≡ ok tt
    → is_final_text x.content.status ≡ true
    → (may "postmortem:approve" call.principal ≡ true)
      × (x.approved_by ≡ some call.principal.user_id)
      × (((x.created_by == call.principal.user_id) ≡ false)
          ⊎ (may "postmortem:self-approve" call.principal ≡ true))
unfolding sealed check_approval
approved_row call draft x e k final = ground arith

-- After any requests to empty tables a postmortem `old` is in the table, and further requests,
-- of any
-- number, may have rewritten it. Then whoever makes the postmortem of that incident approved or
-- published writes to that same row, whose author is still that of `old`; holds the permission to
-- approve; is entered as the approver; and is not that author, unless allowed to approve what
-- they wrote.
pub approver_is_not_author :
    (rt : Runtime) (audit : AuditStore) (s t t' : IncidentDb) (call : IncidentCall)
    (dir : Directory) (p : PostmortemUpsert) (old x : IncidentPostmortem)
    → Runs rt (no_incidents audit) s
    → Memᴰ old s.postmortems
    → Runs rt s t
    → upsert_postmortem_tx call dir old.incident_id p t ≡ ok (x, t')
    → is_final_text x.content.status ≡ true
    → SameAuthor old x
      × (may "postmortem:approve" call.principal ≡ true)
      × (x.approved_by ≡ some call.principal.user_id)
      × (((old.created_by == call.principal.user_id) ≡ false)
          ⊎ (may "postmortem:self-approve" call.principal ≡ true))
approver_is_not_author rt audit s t t' call dir p old x first m later e final =
    let inv = Runs-IsSound (Runs-join first later) (no_incidents-IsSound rt audit) in
    let (y, there, same) = Runs-Keeps old later m in
    let (c, w) = upsert_postmortem_tx-ok call dir old.incident_id p t t' x e in
    let own : c.id ≡ y.incident_id =
      id-found call.principal.tenant_id old.incident_id t.incidents w.found ∙ sym same.incident in
    let before : postmortem_of c.id t.postmortems ≡ some y =
      ap (λ i. postmortem_of i t.postmortems) own ∙ only_one t.postmortems y inv.one_each there in
    let kept : SameAuthor y x =
      subst (SameAuthor y) (sym (w.row ∙ ap (λ o. sealed call (written call p c o)) before))
        (rewritten call p c y) in
    let all : SameAuthor old x = SameAuthor-trans same kept in
    let (approves, entered, apart) =
      approved_row call (written call p c (postmortem_of c.id t.postmortems)) x w.row w.allowed
        final in
    (
      all,
      approves,
      entered,
      subst
          (λ u.
            ((u == call.principal.user_id) ≡ false)
            ⊎ (may "postmortem:self-approve" call.principal ≡ true))
          all.author apart,
    )
