-- ===== src/Subproject/Created.antt =====
-- api/src/service/domain/workflow/subproject_created.ts
use tru_budget.Base.{String, Bool, ◌&&◌, all, []}
use tru_budget.Result.{Result, map_err, event_sourcing_error}
use tru_budget.Joi.{Joi, if_given, or_empty, id_text}
use tru_budget.Money.{currency_code}
use tru_budget.Event.{Header, SubprojectInitialData, BusinessEvent, subproject_created}
use tru_budget.Event.Checks.{header_ok, projected_budget_ok, permissions_ok}
use tru_budget.Event.Create.{checked}
use tru_budget.Subproject.{Subproject, validate}

pub initial_data_ok : Joi → SubprojectInitialData → Bool
initial_data_ok joi d =
    id_text joi d.id
    && joi.string d.display_name
    && or_empty joi.string d.description
    && joi.string d.assignee
    && if_given joi.string d.validator
    && currency_code d.currency
    && all (projected_budget_ok joi) d.projected_budgets
    && permissions_ok joi d.permissions

unfoldable pub create_event : Joi → Header → String → SubprojectInitialData → Result BusinessEvent
unfolding initial_data_ok
create_event joi header project_id subproject =
    checked (header_ok joi header && id_text joi project_id && initial_data_ok joi subproject)
      (subproject_created header project_id subproject)

abbrev pub initial_subproject : Header → String → SubprojectInitialData → Subproject
initial_subproject header project_id initial = record {
  id = initial.id;
  project_id = project_id;
  created_at = header.time;
  status = initial.status;
  display_name = initial.display_name;
  description = initial.description;
  assignee = initial.assignee;
  validator = initial.validator;
  workflowitem_type = initial.workflowitem_type;
  currency = initial.currency;
  projected_budgets = initial.projected_budgets;
  workflowitem_ordering = [];
  permissions = initial.permissions;
  log = [];
  additional_data = initial.additional_data;
}

unfoldable pub create_from : Joi → Header → String → SubprojectInitialData → Result Subproject
create_from joi header project_id initial =
    map_err (validate joi (initial_subproject header project_id initial)) event_sourcing_error
