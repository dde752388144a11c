-- ===== src/WorkflowitemTypes.antt =====
-- api/src/service/domain/workflowitem_types/apply_workflowitem_type.ts: what the type of a
-- workflowitem adds to an event.
pub mod Restricted
use tru_budget.Base.{Option, none, some, List, []}
use tru_budget.Result.{Result, ok}
use tru_budget.Joi.{Joi}
use tru_budget.Event.{general, restricted, BusinessEvent}
use tru_budget.Identity.{ServiceUser}
use tru_budget.Notification.{Ctx}
use tru_budget.Workflowitem.{Workflowitem}
use tru_budget.WorkflowitemTypes.Restricted.{create_events}

unfoldable pub apply_workflowitem_type :
    Joi → BusinessEvent → Ctx → ServiceUser → Workflowitem → Result (List BusinessEvent)
apply_workflowitem_type joi origin_event ctx publisher w = elim w.workflowitem_type [
  | none ↦ ok []
  | some type ↦ elim type [
    | general ↦ ok []
    | restricted ↦ create_events joi origin_event ctx publisher w
  ]
]
