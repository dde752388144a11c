-- ===== src/Commands/AssignProject.antt =====
-- api/src/service/domain/workflow/project_assign.ts
use tru_budget.Base.{String, List, [], ◌∷◌, ◌===◌, if◌then◌else◌}
use tru_budget.Result.{Result, ok, ◌>>=◌, ◌>>◌, map_err, wrapped, not_found, invalid_command}
use tru_budget.Joi.{Joi}
use tru_budget.Event.{Identity, BusinessEvent}
use tru_budget.Identity.{ServiceUser}
use tru_budget.Notification.{Ctx, header_at, notify}
use tru_budget.Project.{Project}
use tru_budget.Project.Assigned
use tru_budget.Project.EventSourcing.{new_project_from_event}
use tru_budget.Commands.{require_permission}

pub record Repository : Type 0 where
  pub get_project : Result Project
  pub get_users_for_identity : Identity → Result (List String)

module _ (joi : Joi) (ctx : Ctx) (issuer : ServiceUser) (project_id : String) (assignee : Identity)
    (repository : Repository) where
  -- the command on a project that is not yet assigned to that user
  unfoldable pub assign_other : Project → Result (List BusinessEvent × Project)
  assign_other p = do
    event ←
        map_err (Assigned.create_event joi (header_at ctx 0 issuer.id) project_id assignee)
          (λ e. wrapped e ("failed to create event" ∷ []))
    require_permission issuer "project.assign" p.permissions
    result ← map_err (new_project_from_event joi p event) invalid_command
    recipients ←
        map_err (repository.get_users_for_identity assignee)
          (λ e. wrapped e ("fetch users for " ∷ assignee ∷ " failed" ∷ []))
    notifications ←
        notify joi ctx "failed to create notification event" issuer.id event project_id recipients
    ok (event ∷ notifications, result)

  -- `assignProject`
  unfoldable pub assign_project : Result (List BusinessEvent × Project)
  unfolding assign_other
  assign_project = do
    p ← map_err repository.get_project (λ _. not_found "project" project_id)
    if p.assignee === assignee then ok ([], p) else assign_other p
