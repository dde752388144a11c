-- ===== src/Workflowitem/EventSourcing/Mutations.antt =====
-- What the `mutate` function of no event module changes in a workflowitem.
use mathlib.Core.List.{append_assoc, append-nil}
use tru_budget.Base.{
  ◌≡◌, inl, inr, refl, sym, ap, ◌∙◌, inl, inr, Option, none, some, List, [], ◌∷◌, ◌++◌, arith,
  Option-cases, find, ◌===◌,
}
use tru_budget.Result.{Result, ok, map_err}
use tru_budget.Result.Inversion.{>>=-eq-ok, map_err-eq-ok}
use tru_budget.Event.{
  StaysClosed, StaysClosed-refl, StaysClosed-trans, AmountType, Status-cases, not_applicable,
  disbursed, allocated, DocumentReference, Header, WorkflowitemPlace, WorkflowitemModification,
  BusinessEvent, workflowitem_updated, workflowitem_assigned, workflowitem_closed,
  workflowitem_permission_granted, workflowitem_permission_revoked, workflowitem_document_validated,
}
use tru_budget.Workflowitem.{Workflowitem}
use tru_budget.Workflowitem.Updated.{
  update_document, add_documents, update_documents, clear_money, update_props, apply_update,
  update_additional_data,
}
use tru_budget.Workflowitem.Updated
use tru_budget.Workflowitem.Assigned
use tru_budget.Workflowitem.Closed
use tru_budget.Workflowitem.PermissionGranted
use tru_budget.Workflowitem.PermissionRevoked
use tru_budget.Workflowitem.DocumentValidated
use tru_budget.Workflowitem.EventSourcing.{get_event_module}

-- The second list begins with the first.
abbrev pub Extends : List DocumentReference → List DocumentReference → Type 0
Extends old new = (extra : List DocumentReference) × (new ≡ old ++ extra)

pub Extends-trans : (a b c : List DocumentReference) → Extends a b → Extends b c → Extends a c
Extends-trans a b c (x, p) (y, q) = (x ++ y, q ∙ ap (λ l. l ++ y) p ∙ append_assoc a x y)

-- An event changes neither the identity of a workflowitem nor its history, takes no document away
-- and does not open it again.
pub record Keeps (w w' : Workflowitem) : Type 0 where
  pub id : w'.id ≡ w.id
  pub subproject_id : w'.subproject_id ≡ w.subproject_id
  pub created_at : w'.created_at ≡ w.created_at
  pub workflowitem_type : w'.workflowitem_type ≡ w.workflowitem_type
  pub log : w'.log ≡ w.log
  pub documents : Extends w.documents w'.documents
  pub stays_closed : StaysClosed w.status w'.status

update_document-Extends :
    (d : DocumentReference) (known : List DocumentReference) {new : List DocumentReference}
    → update_document d known ≡ ok new
    → Extends known new
unfolding update_document
update_document-Extends d known e = elim (Option-cases (find (λ x. x.id === d.id) known)) [
  | inl fresh ↦ (d ∷ [], ground arith)
  | inr (old, found) ↦ ([], ground (arith, append-nil known))
]

add_documents-Extends :
    (ds known : List DocumentReference) {new : List DocumentReference}
    → add_documents ds known ≡ ok new
    → Extends known new
unfolding add_documents
add_documents-Extends [] known e = ([], ground (arith, append-nil known))
add_documents-Extends (d ∷ ds) known e =
    let (mid, first, rest) = >>=-eq-ok (update_document d known) (add_documents ds) e in
    Extends-trans known mid _ (update_document-Extends d known first)
      (add_documents-Extends ds mid rest)

update_documents-Extends :
    (ds : Option (List DocumentReference)) (known : List DocumentReference)
    {new : List DocumentReference}
    → update_documents ds known ≡ ok new
    → Extends known new
update_documents-Extends none known e = ([], ground (arith, append-nil known))
update_documents-Extends (some ds) known e = add_documents-Extends ds known e

pub ok-injective {ℓ} : {A : Type ℓ} {a b : A} → ok a ≡ ok b → a ≡ b
ok-injective e = cc

module _ {v w : Workflowitem} where
  Keeps-of_eq : {w' : Workflowitem} → Keeps v w → ok w ≡ ok w' → Keeps v w'
  Keeps-of_eq k e = rw (ok-injective e) at k

  -- A change of other fields alone.
  Keeps-other :
      w.id ≡ v.id
      → w.subproject_id ≡ v.subproject_id
      → w.created_at ≡ v.created_at
      → w.workflowitem_type ≡ v.workflowitem_type
      → w.log ≡ v.log
      → w.documents ≡ v.documents
      → (StaysClosed v.status w.status)
      → Keeps v w
  Keeps-other i s c t l d h = record {
    id = i;
    subproject_id = s;
    created_at = c;
    workflowitem_type = t;
    log = l;
    documents = ([], d ∙ sym (append-nil v.documents));
    stays_closed = h;
  }

clear_money-Keeps : (t : Option AmountType) (w : Workflowitem) → Keeps w (clear_money t w)
clear_money-Keeps none w = Keeps-other refl refl refl refl refl refl (StaysClosed-refl _)
clear_money-Keeps (some not_applicable) w =
    Keeps-other refl refl refl refl refl refl (StaysClosed-refl _)
clear_money-Keeps (some disbursed) w =
    Keeps-other refl refl refl refl refl refl (StaysClosed-refl _)
clear_money-Keeps (some allocated) w =
    Keeps-other refl refl refl refl refl refl (StaysClosed-refl _)

Keeps-trans : {u v w : Workflowitem} → Keeps u v → Keeps v w → Keeps u w
Keeps-trans {u} {v} {w} a b = record {
  id = b.id ∙ a.id;
  subproject_id = b.subproject_id ∙ a.subproject_id;
  created_at = b.created_at ∙ a.created_at;
  workflowitem_type = b.workflowitem_type ∙ a.workflowitem_type;
  log = b.log ∙ a.log;
  documents = Extends-trans u.documents v.documents w.documents a.documents b.documents;
  stays_closed = StaysClosed-trans u.status v.status w.status a.stays_closed b.stays_closed;
}

apply_update-Keeps :
    (update : WorkflowitemModification) (w : Workflowitem) {w' : Workflowitem}
    → apply_update update w ≡ ok w'
    → Keeps w w'
unfolding apply_update update_props
apply_update-Keeps update w e =
    let (documents, added, rest) =
      >>=-eq-ok (map_err (update_documents update.documents w.documents) _) _ e in
    let changed : Workflowitem = record (update_props update w) {
      additional_data = update_additional_data update.additional_data w.additional_data;
      documents = documents;
    } in
    let inner : Keeps w changed = record {
      id = refl;
      subproject_id = refl;
      created_at = refl;
      workflowitem_type = refl;
      log = refl;
      documents = update_documents-Extends update.documents w.documents (map_err-eq-ok _ _ added);
      stays_closed = StaysClosed-refl w.status;
    } in
    Keeps-of_eq (Keeps-trans inner (clear_money-Keeps update.amount_type changed)) rest

mutate_updated-Keeps :
    (header : Header) (place : WorkflowitemPlace) (update : WorkflowitemModification)
    (w : Workflowitem) {w' : Workflowitem}
    → Updated.mutate header place update w ≡ ok w'
    → Keeps w w'
unfolding Updated.mutate
mutate_updated-Keeps header place update w e = elim (Status-cases w.status) [
  | inl is_open ↦ apply_update-Keeps update w (rw (is_open, Updated.mutate) at e)
  | inr is_closed ↦ cc (rw (is_closed, Updated.mutate) at e)
]

-- Each event module's `mutate`.
pub get_event_module-Keeps :
    (event : BusinessEvent) {mutate : Workflowitem → Result Workflowitem} (w : Workflowitem)
    {w' : Workflowitem}
    → get_event_module event ≡ ok mutate
    → mutate w ≡ ok w'
    → Keeps w w'
unfolding get_event_module Assigned.mutate Closed.mutate PermissionGranted.mutate
    PermissionRevoked.mutate DocumentValidated.mutate
get_event_module-Keeps (workflowitem_updated header place update) w e h =
    mutate_updated-Keeps header place update w (ap (λ m. m w) (ok-injective e) ∙ h)
get_event_module-Keeps (workflowitem_assigned header place assignee) w e h =
    Keeps-of_eq (Keeps-other refl refl refl refl refl refl (StaysClosed-refl _))
      (ap (λ m. m w) (ok-injective e) ∙ h)
get_event_module-Keeps (workflowitem_closed header place reason) w e h =
    Keeps-of_eq (Keeps-other refl refl refl refl refl refl (inr refl))
      (ap (λ m. m w) (ok-injective e) ∙ h)
get_event_module-Keeps (workflowitem_permission_granted header place permission grantee) w e h =
    Keeps-of_eq (Keeps-other refl refl refl refl refl refl (StaysClosed-refl _))
      (ap (λ m. m w) (ok-injective e) ∙ h)
get_event_module-Keeps (workflowitem_permission_revoked header place permission revokee) w e h =
    Keeps-of_eq (Keeps-other refl refl refl refl refl refl (StaysClosed-refl _))
      (ap (λ m. m w) (ok-injective e) ∙ h)
get_event_module-Keeps (workflowitem_document_validated header place is_valid document_id) w e h =
    Keeps-of_eq (Keeps-other refl refl refl refl refl refl (StaysClosed-refl _))
      (ap (λ m. m w) (ok-injective e) ∙ h)
get_event_module-Keeps event w e h = cc
