-- ===== src/Commands/CloseProject.antt =====
-- api/src/service/domain/workflow/project_close.ts
pub mod Guards
use tru_budget.Base.{String, Bool, true, false, not, ◌||◌, List, [], ◌∷◌, any, includes, ◌===◌}
use tru_budget.Result.{
  Result, ok, err, ◌>>=◌, ◌>>◌, require, map_err, wrapped, not_found, precondition_error,
  invalid_command,
}
use tru_budget.Joi.{Joi}
use tru_budget.Event.{opened, closed, BusinessEvent}
use tru_budget.Identity.{ServiceUser}
use tru_budget.Notification.{Ctx, header_at, notify}
use tru_budget.Subproject.{Subproject}
use tru_budget.Project.{Project}
use tru_budget.Project.Closed
use tru_budget.Project.EventSourcing.{new_project_from_event}
use tru_budget.Workflowitem.Ordering.{is_closed}

pub record Repository : Type 0 where
  pub get_project : Result Project
  pub get_subprojects : String → Result (List Subproject)
  pub get_users_for_identity : String → Result (List String)

module _ (joi : Joi) (ctx : Ctx) (issuer : ServiceUser) (project_id : String)
    (repository : Repository) where
  -- the command on a project that is open
  unfoldable pub close_open : Project → Result (List BusinessEvent × Project)
  close_open project = do
    project_closed ←
        map_err (Closed.create_event joi (header_at ctx 0 issuer.id) project_id)
          (λ e. wrapped e ("failed to create event" ∷ []))
    assigned_identities ←
        map_err (repository.get_users_for_identity project.assignee)
          (λ e. wrapped e ("fetch users for " ∷ project.assignee ∷ " failed" ∷ []))
    require ((issuer.id === "root") || includes assigned_identities issuer.id)
        (precondition_error ("Only the assignee is allowed to close the subproject." ∷ []))
    subprojects ←
        map_err (repository.get_subprojects project_id)
          (λ _. precondition_error ("could not find subprojects for project " ∷ project_id ∷ []))
    require (not (any (λ (x : Subproject). not (is_closed x.status)) subprojects))
        (precondition_error ("at least one subproject is not closed yet" ∷ []))
    result ← map_err (new_project_from_event joi project project_closed) invalid_command
    notifications ←
        notify joi ctx "failed to create notification event" issuer.id project_closed project_id
          assigned_identities
    ok (project_closed ∷ notifications, result)

  -- `closeProject`
  unfoldable pub close_project : Result (List BusinessEvent × Project)
  unfolding close_open
  close_project = do
    project ← map_err repository.get_project (λ _. not_found "project" project_id)
    elim project.status [ closed ↦ ok ([], project) | opened ↦ close_open project ]
