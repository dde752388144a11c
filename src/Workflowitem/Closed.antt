-- ===== src/Workflowitem/Closed.antt =====
-- api/src/service/domain/workflow/workflowitem_closed.ts
use tru_budget.Base.{String, ◌&&◌, Option, none, some}
use tru_budget.Result.{Result, ok}
use tru_budget.Joi.{Joi, if_given}
use tru_budget.Event.{
  closed, AmountType, not_applicable, disbursed, allocated, Header, WorkflowitemPlace,
  BusinessEvent, workflowitem_closed,
}
use tru_budget.Event.Checks.{header_ok, workflowitem_place_ok}
use tru_budget.Event.Create.{checked}
use tru_budget.Workflowitem.{Workflowitem}

unfoldable pub create_event :
    Joi → Header → WorkflowitemPlace → Option String → Result BusinessEvent
create_event joi header place reject_reason =
    checked
      (header_ok joi header && workflowitem_place_ok joi place && if_given joi.string reject_reason)
      (workflowitem_closed header place reject_reason)

-- The billing date becomes the time of the event, where it makes sense and is not set already.
abbrev pub billed_at : String → AmountType → Option String → Option String
billed_at time not_applicable date = date
billed_at time disbursed none = some time
billed_at time disbursed (some date) = some date
billed_at time allocated none = some time
billed_at time allocated (some date) = some date

-- `if (event.rejectReason)`: an empty reason counts as none.
abbrev pub rejected_for : Option String → Option String → Option String
rejected_for none old = old
rejected_for (some String.[]) old = old
rejected_for (some (String.◌∷◌ c s)) old = some (String.◌∷◌ c s)

unfoldable pub mutate :
    Header → WorkflowitemPlace → Option String → Workflowitem → Result Workflowitem
mutate header place reject_reason w = ok (record w {
  billing_date = billed_at header.time w.amount_type w.billing_date;
  status = closed;
  reject_reason = rejected_for reject_reason w.reject_reason;
})
