-- ===== src/Project/Created.antt =====
-- api/src/service/domain/workflow/project_created.ts
use tru_budget.Base.{String, Bool, ◌&&◌, Option, none, some, List, all, []}
use tru_budget.Result.{Result, map_err, event_sourcing_error}
use tru_budget.Joi.{Joi, if_given, or_empty, id_text}
use tru_budget.Event.{Header, ProjectInitialData, BusinessEvent, project_created}
use tru_budget.Event.Checks.{header_ok, projected_budget_ok, permissions_ok}
use tru_budget.Event.Create.{checked}
use tru_budget.Project.{Project, validate, tag_ok}

pub initial_data_ok : Joi → ProjectInitialData → Bool
initial_data_ok joi d =
    id_text joi d.id
    && joi.string d.display_name
    && or_empty joi.string d.description
    && joi.string d.assignee
    && if_given (or_empty joi.string) d.thumbnail
    && all (projected_budget_ok joi) d.projected_budgets
    && permissions_ok joi d.permissions
    && if_given (all (tag_ok joi)) d.tags

unfoldable pub create_event : Joi → Header → ProjectInitialData → Result BusinessEvent
unfolding initial_data_ok
create_event joi header project =
    checked (header_ok joi header && initial_data_ok joi project) (project_created header project)

-- `initialData.tags || []`
abbrev pub tags_or_none : Option (List String) → List String
tags_or_none none = []
tags_or_none (some tags) = tags

abbrev pub initial_project : Header → ProjectInitialData → Project
initial_project header initial = record {
  id = initial.id;
  created_at = header.time;
  status = initial.status;
  display_name = initial.display_name;
  description = initial.description;
  assignee = initial.assignee;
  thumbnail = initial.thumbnail;
  projected_budgets = initial.projected_budgets;
  permissions = initial.permissions;
  log = [];
  additional_data = initial.additional_data;
  tags = tags_or_none initial.tags;
}

unfoldable pub create_from : Joi → Header → ProjectInitialData → Result Project
create_from joi header initial =
    map_err (validate joi (initial_project header initial)) event_sourcing_error
