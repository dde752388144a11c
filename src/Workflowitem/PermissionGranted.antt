-- ===== src/Workflowitem/PermissionGranted.antt =====
-- api/src/service/domain/workflow/workflowitem_permission_granted.ts
use tru_budget.Base.{◌&&◌, includes}
use tru_budget.Result.{Result, ok}
use tru_budget.Joi.{Joi}
use tru_budget.Intents.{Intent, workflowitem_intents}
use tru_budget.Event.{
  Identity, Header, WorkflowitemPlace, BusinessEvent, workflowitem_permission_granted,
}
use tru_budget.Event.Checks.{header_ok, workflowitem_place_ok}
use tru_budget.Event.Create.{checked}
use tru_budget.Identity.Grants.{grant}
use tru_budget.Workflowitem.{Workflowitem}

unfoldable pub create_event :
    Joi → Header → WorkflowitemPlace → Intent → Identity → Result BusinessEvent
create_event joi header place permission grantee =
    checked
      (header_ok joi header
        && workflowitem_place_ok joi place
        && includes workflowitem_intents permission
        && joi.string grantee)
      (workflowitem_permission_granted header place permission grantee)

unfoldable pub mutate :
    Header → WorkflowitemPlace → Intent → Identity → Workflowitem → Result Workflowitem
mutate header place permission grantee w =
    ok (record w { permissions = grant permission grantee w.permissions })
