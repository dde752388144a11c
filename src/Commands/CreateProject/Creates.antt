-- ===== src/Commands/CreateProject/Creates.antt =====
-- What the creation of a project has checked, and that its event can be sourced.
use tru_budget.Base.{◌≡◌, ◌≢◌, String, true, false, [], ◌∷◌}
use tru_budget.Result.{ok}
use tru_budget.Dict.{Dict}
use tru_budget.Joi.{Joi}
use tru_budget.Event.{ProjectInitialData, BusinessEvent, project_created}
use tru_budget.Identity.{ServiceUser}
use tru_budget.Notification.{Ctx, header_at}
use tru_budget.GlobalPermissions.{GlobalPermissions, permits}
use tru_budget.Budgets.Laws.{HasOneEach}
use tru_budget.Project.{Project}
use tru_budget.Project.Created
use tru_budget.Project.Created.{initial_project}
use tru_budget.Project.EventSourcing.{store, source_projects}
use tru_budget.Commands.CreateProject.{RequestData, Repository, initial_data}

module _ (joi : Joi) (ctx : Ctx) (random_string : String) (user : ServiceUser)
    (request : RequestData) (repository : Repository) where
  abbrev pub created_data : ProjectInitialData
  created_data = initial_data random_string user request

  -- What the command has established when it returns an event.
  pub record Creates (event : BusinessEvent) : Type 0 where
    pub shape : event ≡ project_created (header_at ctx 0 user.id) created_data
    pub one_each : HasOneEach created_data.projected_budgets
    pub is_new : repository.project_exists created_data.id ≡ false
    pub not_root : user.id ≢ "root"
    pub global_permissions : GlobalPermissions
    pub read : repository.get_global_permissions ≡ ok global_permissions
    pub permitted : permits global_permissions user ("global.createProject" ∷ []) ≡ true
    pub sourced :
        (projects : Dict Project)
        → source_projects joi (event ∷ []) projects
          ≡ (store joi event (initial_project (header_at ctx 0 user.id) created_data) projects, [])
