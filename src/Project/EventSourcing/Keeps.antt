-- ===== src/Project/EventSourcing/Keeps.antt =====
-- What no event changes in a project, and what every event leaves valid.
use tru_budget.Base.{◌≡◌, refl, ap, subst, ◌∙◌, inl, inr, String, true, [], Bool-cases}
use tru_budget.Result.{Result, ok, map_err}
use tru_budget.Result.Inversion.{>>=-eq-ok, map_err-eq-ok}
use tru_budget.Joi.{Joi}
use tru_budget.Event.{
  StaysClosed, StaysClosed-refl, Status-cases, Header, ProjectModification, BusinessEvent,
  project_updated, project_assigned, project_closed, project_permission_granted,
  project_permission_revoked, project_projected_budget_updated, project_projected_budget_deleted,
}
use tru_budget.Project.{Project, schema, validate}
use tru_budget.Project.Updated
use tru_budget.Project.Assigned
use tru_budget.Project.Closed
use tru_budget.Project.PermissionGranted
use tru_budget.Project.PermissionRevoked
use tru_budget.Project.BudgetUpdated
use tru_budget.Project.BudgetDeleted
use tru_budget.Project.EventSourcing.{get_event_module, new_project_from_event}
use tru_budget.Workflowitem.EventSourcing.Mutations.{ok-injective}

pub record Keeps (e e' : Project) : Type 0 where
  pub id : e'.id ≡ e.id
  pub created_at : e'.created_at ≡ e.created_at
  pub log : e'.log ≡ e.log
  pub stays_closed : StaysClosed e.status e'.status

module _ {v w : Project} where
  Keeps-of_eq : {w' : Project} → Keeps v w → ok w ≡ ok w' → Keeps v w'
  Keeps-of_eq k q = rw (ok-injective q) at k

  Keeps-other :
      w.id ≡ v.id
      → w.created_at ≡ v.created_at
      → w.log ≡ v.log
      → (StaysClosed v.status w.status)
      → Keeps v w
  Keeps-other q0 q1 q2 h = record { id = q0; created_at = q1; log = q2; stays_closed = h }

mutate_updated-Keeps :
    (header : Header) (place : String) (update : ProjectModification) (v : Project) {w : Project}
    → Updated.mutate header place update v ≡ ok w
    → Keeps v w
unfolding Updated.mutate
mutate_updated-Keeps header place update v q = elim (Status-cases v.status) [
  | inl is_open ↦
      Keeps-of_eq (Keeps-other refl refl refl (StaysClosed-refl _))
        (rw (is_open, Updated.mutate) at q)
  | inr is_closed ↦ cc (rw (is_closed, Updated.mutate) at q)
]

-- Each event module's `mutate`.
get_event_module-Keeps :
    (event : BusinessEvent) {mutate : Project → Result Project} (v : Project) {w : Project}
    → get_event_module event ≡ ok mutate
    → mutate v ≡ ok w
    → Keeps v w
unfolding get_event_module Assigned.mutate Closed.mutate PermissionGranted.mutate
    PermissionRevoked.mutate BudgetUpdated.mutate BudgetDeleted.mutate
get_event_module-Keeps (project_updated header place update) v q h =
    mutate_updated-Keeps header place update v (ap (λ m. m v) (ok-injective q) ∙ h)
get_event_module-Keeps (project_assigned header place assignee) v q h =
    Keeps-of_eq (Keeps-other refl refl refl (StaysClosed-refl _))
      (ap (λ m. m v) (ok-injective q) ∙ h)
get_event_module-Keeps (project_closed header place) v q h =
    Keeps-of_eq (Keeps-other refl refl refl (inr refl)) (ap (λ m. m v) (ok-injective q) ∙ h)
get_event_module-Keeps (project_permission_granted header place permission grantee) v q h =
    Keeps-of_eq (Keeps-other refl refl refl (StaysClosed-refl _))
      (ap (λ m. m v) (ok-injective q) ∙ h)
get_event_module-Keeps (project_permission_revoked header place permission revokee) v q h =
    Keeps-of_eq (Keeps-other refl refl refl (StaysClosed-refl _))
      (ap (λ m. m v) (ok-injective q) ∙ h)
get_event_module-Keeps (project_projected_budget_updated header place budget) v q h =
    Keeps-of_eq (Keeps-other refl refl refl (StaysClosed-refl _))
      (ap (λ m. m v) (ok-injective q) ∙ h)
get_event_module-Keeps (project_projected_budget_deleted header place organization currency_code) v
      q h =
    Keeps-of_eq (Keeps-other refl refl refl (StaysClosed-refl _))
      (ap (λ m. m v) (ok-injective q) ∙ h)
get_event_module-Keeps event v q h = cc

-- The schema holds of the project with its log emptied, as sourcing validates it.
abbrev pub IsValid : Joi → Project → Type 0
IsValid joi v = schema joi (record v { log = [] }) ≡ true

pub validate-eq-ok :
    (joi : Joi) (v : Project) {w : Project}
    → validate joi v ≡ ok w
    → (schema joi v ≡ true) × (v ≡ w)
unfolding validate
validate-eq-ok joi v q = elim (Bool-cases (schema joi v)) [
  | inl passes ↦ (passes, ok-injective (rw (passes, validate) at q))
  | inr fails ↦ cc (rw (fails, validate) at q)
]

-- An event that is applied changes neither the ID, the time of creation nor the log of the project
-- and does not open a closed one; and the result passes the schema once its log is emptied.
pub new_project_from_event-Keeps :
    (joi : Joi) (v : Project) (event : BusinessEvent) {w : Project}
    → new_project_from_event joi v event ≡ ok w
    → Keeps v w × IsValid joi w
unfolding new_project_from_event
new_project_from_event-Keeps joi v event q =
    let (mutate, found, rest) = >>=-eq-ok (get_event_module event) _ q in
    let (copy, changed, rest') = >>=-eq-ok (map_err (mutate (record v { log = [] })) _) _ rest in
    let (valid, checked, rest'') = >>=-eq-ok (map_err (validate joi copy) _) _ rest' in
    let (passes, same) = validate-eq-ok joi copy (map_err-eq-ok _ _ checked) in
    let kept : Keeps (record v { log = [] }) copy =
      get_event_module-Keeps event _ found (map_err-eq-ok _ _ changed) in
    let done : Keeps v (record copy { log = v.log }) = record {
      id = kept.id;
      created_at = kept.created_at;
      log = refl;
      stays_closed = kept.stays_closed;
    } in
    subst (λ w. Keeps v w × IsValid joi w)
      (ap (λ (x : Project). record x { log = v.log }) same ∙ ok-injective rest'')
      (done, subst (λ l. schema joi (record copy { log = l }) ≡ true) kept.log passes)
