-- ===== src/Workflowitem/PermissionRevoked.antt =====
-- api/src/service/domain/workflow/workflowitem_permission_revoked.ts
use tru_budget.Base.{◌&&◌, includes}
use tru_budget.Result.{Result, ok}
use tru_budget.Joi.{Joi}
use tru_budget.Intents.{Intent, workflowitem_intents}
use tru_budget.Event.{
  Identity, Header, WorkflowitemPlace, BusinessEvent, workflowitem_permission_revoked,
}
use tru_budget.Event.Checks.{header_ok, workflowitem_place_ok}
use tru_budget.Event.Create.{checked}
use tru_budget.Identity.Grants.{revoke}
use tru_budget.Workflowitem.{Workflowitem}

unfoldable pub create_event :
    Joi → Header → WorkflowitemPlace → Intent → Identity → Result BusinessEvent
create_event joi header place permission revokee =
    checked
      (header_ok joi header
        && workflowitem_place_ok joi place
        && includes workflowitem_intents permission
        && joi.string revokee)
      (workflowitem_permission_revoked header place permission revokee)

unfoldable pub mutate :
    Header → WorkflowitemPlace → Intent → Identity → Workflowitem → Result Workflowitem
mutate header place permission revokee w =
    ok (record w { permissions = revoke permission revokee w.permissions })
