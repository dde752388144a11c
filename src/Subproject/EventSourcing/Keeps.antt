-- ===== src/Subproject/EventSourcing/Keeps.antt =====
-- What no event changes in a subproject, and what every event leaves valid.
use tru_budget.Base.{◌≡◌, refl, ap, subst, ◌∙◌, inl, inr, true, [], Bool-cases}
use tru_budget.Result.{Result, ok, map_err}
use tru_budget.Result.Inversion.{>>=-eq-ok, map_err-eq-ok}
use tru_budget.Joi.{Joi}
use tru_budget.Event.{
  StaysClosed, StaysClosed-refl, Status-cases, Header, SubprojectPlace, SubprojectUpdate,
  BusinessEvent, subproject_updated, subproject_assigned, subproject_closed,
  subproject_permission_granted, subproject_permission_revoked, subproject_projected_budget_updated,
  subproject_projected_budget_deleted, workflowitems_reordered,
}
use tru_budget.Subproject.{Subproject, schema, validate}
use tru_budget.Subproject.Updated
use tru_budget.Subproject.Assigned
use tru_budget.Subproject.Closed
use tru_budget.Subproject.PermissionGranted
use tru_budget.Subproject.PermissionRevoked
use tru_budget.Subproject.BudgetUpdated
use tru_budget.Subproject.BudgetDeleted
use tru_budget.Subproject.Reordered
use tru_budget.Subproject.EventSourcing.{get_event_module, new_subproject_from_event}
use tru_budget.Workflowitem.EventSourcing.Mutations.{ok-injective}

pub record Keeps (e e' : Subproject) : Type 0 where
  pub id : e'.id ≡ e.id
  pub project_id : e'.project_id ≡ e.project_id
  pub created_at : e'.created_at ≡ e.created_at
  pub currency : e'.currency ≡ e.currency
  pub workflowitem_type : e'.workflowitem_type ≡ e.workflowitem_type
  pub validator : e'.validator ≡ e.validator
  pub log : e'.log ≡ e.log
  pub stays_closed : StaysClosed e.status e'.status

module _ {v w : Subproject} where
  Keeps-of_eq : {w' : Subproject} → Keeps v w → ok w ≡ ok w' → Keeps v w'
  Keeps-of_eq k q = rw (ok-injective q) at k

  Keeps-other :
      w.id ≡ v.id
      → w.project_id ≡ v.project_id
      → w.created_at ≡ v.created_at
      → w.currency ≡ v.currency
      → w.workflowitem_type ≡ v.workflowitem_type
      → w.validator ≡ v.validator
      → w.log ≡ v.log
      → (StaysClosed v.status w.status)
      → Keeps v w
  Keeps-other q0 q1 q2 q3 q4 q5 q6 h = record {
    id = q0;
    project_id = q1;
    created_at = q2;
    currency = q3;
    workflowitem_type = q4;
    validator = q5;
    log = q6;
    stays_closed = h;
  }

mutate_updated-Keeps :
    (header : Header) (place : SubprojectPlace) (update : SubprojectUpdate) (v : Subproject)
    {w : Subproject}
    → Updated.mutate header place update v ≡ ok w
    → Keeps v w
unfolding Updated.mutate
mutate_updated-Keeps header place update v q = elim (Status-cases v.status) [
  | inl is_open ↦
      Keeps-of_eq (Keeps-other refl refl refl refl refl refl refl (StaysClosed-refl _))
        (rw (is_open, Updated.mutate) at q)
  | inr is_closed ↦ cc (rw (is_closed, Updated.mutate) at q)
]

-- Each event module's `mutate`.
get_event_module-Keeps :
    (event : BusinessEvent) {mutate : Subproject → Result Subproject} (v : Subproject)
    {w : Subproject}
    → get_event_module event ≡ ok mutate
    → mutate v ≡ ok w
    → Keeps v w
unfolding get_event_module Assigned.mutate Closed.mutate PermissionGranted.mutate
    PermissionRevoked.mutate BudgetUpdated.mutate BudgetDeleted.mutate Reordered.mutate
get_event_module-Keeps (subproject_updated header place update) v q h =
    mutate_updated-Keeps header place update v (ap (λ m. m v) (ok-injective q) ∙ h)
get_event_module-Keeps (subproject_assigned header place assignee) v q h =
    Keeps-of_eq (Keeps-other refl refl refl refl refl refl refl (StaysClosed-refl _))
      (ap (λ m. m v) (ok-injective q) ∙ h)
get_event_module-Keeps (subproject_closed header place) v q h =
    Keeps-of_eq (Keeps-other refl refl refl refl refl refl refl (inr refl))
      (ap (λ m. m v) (ok-injective q) ∙ h)
get_event_module-Keeps (subproject_permission_granted header place permission grantee) v q h =
    Keeps-of_eq (Keeps-other refl refl refl refl refl refl refl (StaysClosed-refl _))
      (ap (λ m. m v) (ok-injective q) ∙ h)
get_event_module-Keeps (subproject_permission_revoked header place permission revokee) v q h =
    Keeps-of_eq (Keeps-other refl refl refl refl refl refl refl (StaysClosed-refl _))
      (ap (λ m. m v) (ok-injective q) ∙ h)
get_event_module-Keeps (subproject_projected_budget_updated header place budget) v q h =
    Keeps-of_eq (Keeps-other refl refl refl refl refl refl refl (StaysClosed-refl _))
      (ap (λ m. m v) (ok-injective q) ∙ h)
get_event_module-Keeps (subproject_projected_budget_deleted header place organization currency_code)
      v q h =
    Keeps-of_eq (Keeps-other refl refl refl refl refl refl refl (StaysClosed-refl _))
      (ap (λ m. m v) (ok-injective q) ∙ h)
get_event_module-Keeps (workflowitems_reordered header place ordering) v q h =
    Keeps-of_eq (Keeps-other refl refl refl refl refl refl refl (StaysClosed-refl _))
      (ap (λ m. m v) (ok-injective q) ∙ h)
get_event_module-Keeps event v q h = cc

-- The schema holds of the subproject with its log emptied, as sourcing validates it.
abbrev pub IsValid : Joi → Subproject → Type 0
IsValid joi v = schema joi (record v { log = [] }) ≡ true

pub validate-eq-ok :
    (joi : Joi) (v : Subproject) {w : Subproject}
    → validate joi v ≡ ok w
    → (schema joi v ≡ true) × (v ≡ w)
unfolding validate
validate-eq-ok joi v q = elim (Bool-cases (schema joi v)) [
  | inl passes ↦ (passes, ok-injective (rw (passes, validate) at q))
  | inr fails ↦ cc (rw (fails, validate) at q)
]

-- An event that is applied changes neither the ID, the project, the time of creation, the currency,
-- the type of workflowitems, the validator nor the log of the subproject and does not open a closed
-- one; and the result passes the schema once its log is emptied.
pub new_subproject_from_event-Keeps :
    (joi : Joi) (v : Subproject) (event : BusinessEvent) {w : Subproject}
    → new_subproject_from_event joi v event ≡ ok w
    → Keeps v w × IsValid joi w
unfolding new_subproject_from_event
new_subproject_from_event-Keeps joi v event q =
    let (mutate, found, rest) = >>=-eq-ok (get_event_module event) _ q in
    let (copy, changed, rest') = >>=-eq-ok (map_err (mutate (record v { log = [] })) _) _ rest in
    let (valid, checked, rest'') = >>=-eq-ok (map_err (validate joi copy) _) _ rest' in
    let (passes, same) = validate-eq-ok joi copy (map_err-eq-ok _ _ checked) in
    let kept : Keeps (record v { log = [] }) copy =
      get_event_module-Keeps event _ found (map_err-eq-ok _ _ changed) in
    let done : Keeps v (record copy { log = v.log }) = record {
      id = kept.id;
      project_id = kept.project_id;
      created_at = kept.created_at;
      currency = kept.currency;
      workflowitem_type = kept.workflowitem_type;
      validator = kept.validator;
      log = refl;
      stays_closed = kept.stays_closed;
    } in
    subst (λ w. Keeps v w × IsValid joi w)
      (ap (λ (x : Subproject). record x { log = v.log }) same ∙ ok-injective rest'')
      (done, subst (λ l. schema joi (record copy { log = l }) ≡ true) kept.log passes)
