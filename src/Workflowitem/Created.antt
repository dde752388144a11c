-- ===== src/Workflowitem/Created.antt =====
-- api/src/service/domain/workflow/workflowitem_created.ts
use tru_budget.Base.{Bool, ◌&&◌, none, all, []}
use tru_budget.Result.{Result, map_err, event_sourcing_error}
use tru_budget.Joi.{Joi, if_given, or_empty, id_text}
use tru_budget.Event.{
  Header, SubprojectPlace, WorkflowitemInitialData, BusinessEvent, workflowitem_created,
}
use tru_budget.Event.Checks.{header_ok, subproject_place_ok, document_reference_ok, permissions_ok}
use tru_budget.Event.Create.{checked}
use tru_budget.Workflowitem.{Workflowitem, validate}

pub initial_data_ok : Joi → WorkflowitemInitialData → Bool
initial_data_ok joi d =
    id_text joi d.id
    && joi.string d.display_name
    && or_empty joi.string d.description
    && joi.string d.assignee
    && if_given joi.string d.amount
    && if_given joi.string d.currency
    && if_given joi.string d.exchange_rate
    && if_given joi.iso_date d.billing_date
    && if_given (or_empty joi.iso_date) d.due_date
    && all (document_reference_ok joi) d.documents
    && permissions_ok joi d.permissions

unfoldable pub create_event :
    Joi → Header → SubprojectPlace → WorkflowitemInitialData → Result BusinessEvent
unfolding initial_data_ok
create_event joi header place workflowitem =
    checked
      (header_ok joi header && subproject_place_ok joi place && initial_data_ok joi workflowitem)
      (workflowitem_created header place workflowitem)

abbrev pub initial_workflowitem : Header → SubprojectPlace → WorkflowitemInitialData → Workflowitem
initial_workflowitem header place initial = record {
  id = initial.id;
  subproject_id = place.subproject_id;
  created_at = header.time;
  due_date = initial.due_date;
  display_name = initial.display_name;
  exchange_rate = initial.exchange_rate;
  billing_date = initial.billing_date;
  amount = initial.amount;
  currency = initial.currency;
  amount_type = initial.amount_type;
  description = initial.description;
  status = initial.status;
  reject_reason = none;
  assignee = initial.assignee;
  documents = initial.documents;
  permissions = initial.permissions;
  log = [];
  additional_data = initial.additional_data;
  workflowitem_type = initial.workflowitem_type;
}

unfoldable pub create_from :
    Joi → Header → SubprojectPlace → WorkflowitemInitialData → Result Workflowitem
create_from joi header place initial =
    map_err (validate joi (initial_workflowitem header place initial)) event_sourcing_error
