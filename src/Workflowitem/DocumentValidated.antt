-- ===== src/Workflowitem/DocumentValidated.antt =====
-- api/src/service/domain/document/document_validated.ts
use tru_budget.Base.{String, Bool, ◌&&◌}
use tru_budget.Result.{Result, ok}
use tru_budget.Joi.{Joi}
use tru_budget.Event.{Header, WorkflowitemPlace, BusinessEvent, workflowitem_document_validated}
use tru_budget.Event.Checks.{header_ok, workflowitem_place_ok}
use tru_budget.Event.Create.{checked}
use tru_budget.Workflowitem.{Workflowitem}

unfoldable pub create_event :
    Joi → Header → WorkflowitemPlace → Bool → String → Result BusinessEvent
create_event joi header place is_document_valid document_id =
    checked (header_ok joi header && workflowitem_place_ok joi place && joi.string document_id)
      (workflowitem_document_validated header place is_document_valid document_id)

-- The event is only logged: the workflowitem stays as it is.
unfoldable pub mutate :
    Header → WorkflowitemPlace → Bool → String → Workflowitem → Result Workflowitem
mutate header place is_document_valid document_id w = ok w
