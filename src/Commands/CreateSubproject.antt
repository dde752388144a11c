-- ===== src/Commands/CreateSubproject.antt =====
-- api/src/service/domain/workflow/subproject_create.ts; the text of `randomString` is a parameter.
use tru_budget.Base.{String, Bool, not, ◌||◌, Option, List, [], ◌∷◌, ◌===◌}
use tru_budget.Result.{
  Failure, Result, ok, ◌>>=◌, ◌>>◌, map_err, require, wrapped, not_found, already_exists,
  precondition_error, not_authorized, invalid_command,
}
use tru_budget.Joi.{Joi}
use tru_budget.Intents.{subproject_intents}
use tru_budget.Event.{
  Status, opened, ProjectedBudget, WorkflowitemType, AdditionalData, Permissions,
  SubprojectInitialData, BusinessEvent,
}
use tru_budget.Identity.{ServiceUser, permits}
use tru_budget.Notification.{Ctx, header_at}
use tru_budget.Subproject.Created
use tru_budget.Commands.Duplicates.{
  find_duplicate_budget_entry, require_no_entry, new_default_permissions_for, text_or, value_or,
}

pub record RequestData : Type 0 where
  pub project_id : String
  pub subproject_id : Option String
  pub status : Option Status
  pub display_name : String
  pub description : Option String
  pub assignee : Option String
  pub validator : Option String
  pub workflowitem_type : Option WorkflowitemType
  pub currency : String
  pub projected_budgets : Option (List ProjectedBudget)
  pub additional_data : Option AdditionalData

pub record Repository : Type 0 where
  pub subproject_exists : String → String → Bool
  pub project_permissions : String → Result Permissions
  pub message_of : Failure → List String

-- the data of the event
unfoldable pub initial_data : String → ServiceUser → RequestData → SubprojectInitialData
initial_data random_string user request = record {
  id = text_or request.subproject_id random_string;
  status = value_or request.status opened;
  display_name = request.display_name;
  description = text_or request.description "";
  assignee = text_or request.assignee user.id;
  validator = request.validator;
  workflowitem_type = request.workflowitem_type;
  currency = request.currency;
  projected_budgets = value_or request.projected_budgets [];
  permissions = new_default_permissions_for subproject_intents user.id;
  additional_data = value_or request.additional_data [];
}

-- `createSubproject`. The permissions of the project are asked for twice. The check of the intent
-- passes root, who is refused behind it.
unfoldable pub create_subproject :
    Joi → Ctx → String → ServiceUser → RequestData → Repository → Result BusinessEvent
create_subproject joi ctx random_string user request repository = do
  event ←
      map_err
        (Created.create_event joi (header_at ctx 0 user.id) request.project_id
          (initial_data random_string user request))
        (λ e. wrapped e ("failed to create subproject created event" ∷ []))
  require_no_entry
      (find_duplicate_budget_entry (initial_data random_string user request).projected_budgets)
  require
      (not (
        repository.subproject_exists request.project_id
          (initial_data random_string user request).id))
      (already_exists (initial_data random_string user request).id)
  first ← map_err (repository.project_permissions request.project_id) (λ e. precondition_error (
      "cannot get project permissions for project "
      ∷ request.project_id
      ∷ ": "
      ∷ repository.message_of e))
  permissions ←
      map_err (repository.project_permissions request.project_id)
        (λ _. not_found "project" request.project_id)
  require ((user.id === "root") || permits permissions user ("project.createSubproject" ∷ []))
      (not_authorized user.id "project.createSubproject")
  require (not (user.id === "root"))
      (precondition_error ("user 'root' is not allowed to create subprojects" ∷ []))
  result ←
      map_err
        (Created.create_from joi (header_at ctx 0 user.id) request.project_id
          (initial_data random_string user request))
        invalid_command
  ok event
