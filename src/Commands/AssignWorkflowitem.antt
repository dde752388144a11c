-- ===== src/Commands/AssignWorkflowitem.antt =====
-- api/src/service/domain/workflow/workflowitem_assign.ts
pub mod Guards
use tru_budget.Base.{String, List, [], ◌∷◌, ◌++◌, ◌===◌, if◌then◌else◌}
use tru_budget.Result.{Result, ok, err, ◌>>=◌, ◌>>◌, map_err, wrapped, not_found, invalid_command}
use tru_budget.Joi.{Joi}
use tru_budget.Event.{Identity, WorkflowitemPlace, BusinessEvent}
use tru_budget.Identity.{ServiceUser}
use tru_budget.Notification.{Ctx, header_at, notify}
use tru_budget.Workflowitem.{Workflowitem}
use tru_budget.Workflowitem.Assigned
use tru_budget.Workflowitem.EventSourcing.{new_workflowitem_from_event}
use tru_budget.Commands.{require_permission}

pub record Repository : Type 0 where
  pub get_workflowitem : String → Result Workflowitem
  pub get_users_for_identity : Identity → Result (List String)
  pub apply_workflowitem_type : BusinessEvent → Workflowitem → Result (List BusinessEvent)

module _ (joi : Joi) (ctx : Ctx) (publisher : ServiceUser) (assignee : Identity)
    (place : WorkflowitemPlace) (repository : Repository) where
  -- the command on a workflowitem that is not yet assigned to that user
  unfoldable pub assign_other : Workflowitem → Result (List BusinessEvent × Workflowitem)
  assign_other w = do
    assign_event ←
        map_err (Assigned.create_event joi (header_at ctx 0 publisher.id) place assignee)
          (λ e. wrapped e ("failed to create event" ∷ []))
    require_permission publisher "workflowitem.assign" w.permissions
    result ← map_err (new_workflowitem_from_event joi w assign_event) invalid_command
    recipients ←
        map_err (repository.get_users_for_identity assignee)
          (λ e. wrapped e ("fetch users for " ∷ assignee ∷ " failed" ∷ []))
    notifications ←
        notify joi ctx "failed to create notification event" publisher.id assign_event
          place.project_id recipients
    type_events ←
        map_err (repository.apply_workflowitem_type assign_event w)
          (λ e. wrapped e ("failed to apply workflowitem type" ∷ []))
    ok (assign_event ∷ (notifications ++ type_events), w)

  -- `assignWorkflowitem`
  unfoldable pub assign_workflowitem : Result (List BusinessEvent × Workflowitem)
  unfolding assign_other
  assign_workflowitem = do
    w ←
        map_err (repository.get_workflowitem place.workflowitem_id)
          (λ _. not_found "workflowitem" place.workflowitem_id)
    if assignee === w.assignee then ok ([], w) else assign_other w
