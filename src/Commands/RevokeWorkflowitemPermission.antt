-- ===== src/Commands/RevokeWorkflowitemPermission.antt =====
-- api/src/service/domain/workflow/workflowitem_permission_revoke.ts; lodash's `isEqual` is a parameter.
use tru_budget.Base.{String, Bool, List, [], ◌∷◌, if◌then◌else◌}
use tru_budget.Result.{Result, ok, ◌>>=◌, ◌>>◌, map_err, wrapped, not_found, invalid_command}
use tru_budget.Joi.{Joi}
use tru_budget.Intents.{Intent}
use tru_budget.Event.{Identity, Permissions, BusinessEvent, WorkflowitemPlace}
use tru_budget.Identity.{ServiceUser}
use tru_budget.Notification.{Ctx, header_at}
use tru_budget.Workflowitem.{Workflowitem}
use tru_budget.Workflowitem.PermissionRevoked
use tru_budget.Workflowitem.EventSourcing.{new_workflowitem_from_event}
use tru_budget.Commands.{require_permission}
use tru_budget.Commands.LastUser.{keep_last_user}

pub record Repository : Type 0 where
  pub get_workflowitem : String → String → String → Result Workflowitem

module _ (joi : Joi) (is_equal : Permissions → Permissions → Bool) (ctx : Ctx)
    (issuer : ServiceUser) (place : WorkflowitemPlace) (repository : Repository) where
  -- `revokeWorkflowitemPermission`: the event is only emitted if it changes the permissions.
  unfoldable pub revoke_workflowitem_permission : Identity → Intent → Result (List BusinessEvent)
  revoke_workflowitem_permission revokee intent = do
    w ←
        map_err
          (repository.get_workflowitem place.project_id place.subproject_id place.workflowitem_id)
          (λ _. not_found "workflowitem" place.workflowitem_id)
    event ←
        map_err
          (PermissionRevoked.create_event joi (header_at ctx 0 issuer.id) place intent revokee)
          (λ e. wrapped e ("failed to create permission revoked event" ∷ []))
    require_permission issuer "workflowitem.intent.revokePermission" w.permissions
    updated ← map_err (new_workflowitem_from_event joi w event) invalid_command
    keep_last_user "workflowitem.intent.grantPermission" intent w.permissions
    if is_equal w.permissions updated.permissions then ok [] else ok (event ∷ [])
