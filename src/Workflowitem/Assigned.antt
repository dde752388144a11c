-- ===== src/Workflowitem/Assigned.antt =====
-- api/src/service/domain/workflow/workflowitem_assigned.ts
use tru_budget.Base.{◌&&◌}
use tru_budget.Result.{Result, ok}
use tru_budget.Joi.{Joi}
use tru_budget.Event.{Identity, Header, WorkflowitemPlace, BusinessEvent, workflowitem_assigned}
use tru_budget.Event.Checks.{header_ok, workflowitem_place_ok}
use tru_budget.Event.Create.{checked}
use tru_budget.Workflowitem.{Workflowitem}

unfoldable pub create_event : Joi → Header → WorkflowitemPlace → Identity → Result BusinessEvent
create_event joi header place assignee =
    checked (header_ok joi header && workflowitem_place_ok joi place && joi.string assignee)
      (workflowitem_assigned header place assignee)

unfoldable pub mutate : Header → WorkflowitemPlace → Identity → Workflowitem → Result Workflowitem
mutate header place assignee w = ok (record w { assignee = assignee })
