-- ===== src/Commands/CreateProject.antt =====
-- api/src/service/domain/workflow/project_create.ts; the text of `randomString` is a parameter.
pub mod Creates
use tru_budget.Base.{String, Bool, not, Option, some, List, [], ◌∷◌, ◌===◌}
use tru_budget.Result.{
  Result, ok, ◌>>=◌, ◌>>◌, map_err, require, wrapped, already_exists, precondition_error,
  not_authorized, invalid_command,
}
use tru_budget.Joi.{Joi}
use tru_budget.Intents.{project_intents}
use tru_budget.Event.{
  Status, opened, ProjectedBudget, AdditionalData, ProjectInitialData, BusinessEvent,
}
use tru_budget.Identity.{ServiceUser}
use tru_budget.Notification.{Ctx, header_at}
use tru_budget.GlobalPermissions.{GlobalPermissions, permits}
use tru_budget.Project.Created
use tru_budget.Commands.Duplicates.{
  find_duplicate_budget_entry, require_no_entry, new_default_permissions_for, text_or, value_or,
}

pub record RequestData : Type 0 where
  pub id : Option String
  pub status : Option Status
  pub display_name : String
  pub description : Option String
  pub assignee : Option String
  pub thumbnail : Option String
  pub projected_budgets : Option (List ProjectedBudget)
  pub additional_data : Option AdditionalData
  pub tags : Option (List String)

pub record Repository : Type 0 where
  pub get_global_permissions : Result GlobalPermissions
  pub project_exists : String → Bool

-- the data of the event
unfoldable pub initial_data : String → ServiceUser → RequestData → ProjectInitialData
initial_data random_string user request = record {
  id = text_or request.id random_string;
  status = value_or request.status opened;
  display_name = request.display_name;
  description = text_or request.description "";
  assignee = text_or request.assignee user.id;
  thumbnail = some (text_or request.thumbnail "");
  projected_budgets = value_or request.projected_budgets [];
  permissions = new_default_permissions_for project_intents user.id;
  additional_data = value_or request.additional_data [];
  tags = some (value_or request.tags []);
}

-- `createProject`
unfoldable pub create_project :
    Joi → Ctx → String → ServiceUser → RequestData → Repository → Result BusinessEvent
create_project joi ctx random_string user request repository = do
  event ←
      map_err
        (Created.create_event joi (header_at ctx 0 user.id)
          (initial_data random_string user request))
        (λ e. wrapped e ("failed to create project created event" ∷ []))
  require_no_entry
      (find_duplicate_budget_entry (initial_data random_string user request).projected_budgets)
  require (not (repository.project_exists (initial_data random_string user request).id))
      (already_exists (initial_data random_string user request).id)
  require (not (user.id === "root"))
      (precondition_error ("user 'root' is not allowed to create projects" ∷ []))
  global_permissions ←
      map_err repository.get_global_permissions
        (λ e. wrapped e ("get global permissions failed" ∷ []))
  require (permits global_permissions user ("global.createProject" ∷ []))
      (not_authorized user.id "global.createProject")
  result ←
      map_err
        (Created.create_from joi (header_at ctx 0 user.id)
          (initial_data random_string user request))
        invalid_command
  ok event
