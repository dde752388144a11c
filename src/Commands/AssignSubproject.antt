-- ===== src/Commands/AssignSubproject.antt =====
-- api/src/service/domain/workflow/subproject_assign.ts
use tru_budget.Base.{String, List, [], ◌∷◌, ◌===◌, if◌then◌else◌}
use tru_budget.Result.{Result, ok, ◌>>=◌, ◌>>◌, map_err, wrapped, not_found, invalid_command}
use tru_budget.Joi.{Joi}
use tru_budget.Event.{Identity, BusinessEvent, SubprojectPlace}
use tru_budget.Identity.{ServiceUser}
use tru_budget.Notification.{Ctx, header_at, notify}
use tru_budget.Subproject.{Subproject}
use tru_budget.Subproject.Assigned
use tru_budget.Subproject.EventSourcing.{new_subproject_from_event}
use tru_budget.Commands.{require_permission}

pub record Repository : Type 0 where
  pub get_subproject : Result Subproject
  pub get_users_for_identity : Identity → Result (List String)

module _ (joi : Joi) (ctx : Ctx) (issuer : ServiceUser) (place : SubprojectPlace)
    (assignee : Identity) (repository : Repository) where
  -- the command on a subproject that is not yet assigned to that user
  unfoldable pub assign_other : Subproject → Result (List BusinessEvent × Subproject)
  assign_other s = do
    event ←
        map_err (Assigned.create_event joi (header_at ctx 0 issuer.id) place assignee)
          (λ e. wrapped e ("failed to create event" ∷ []))
    require_permission issuer "subproject.assign" s.permissions
    result ← map_err (new_subproject_from_event joi s event) invalid_command
    recipients ←
        map_err (repository.get_users_for_identity assignee)
          (λ e. wrapped e ("fetch users for " ∷ assignee ∷ " failed" ∷ []))
    notifications ←
        notify joi ctx "failed to create notification event" issuer.id event place.project_id
          recipients
    ok (event ∷ notifications, result)

  -- `assignSubproject`
  unfoldable pub assign_subproject : Result (List BusinessEvent × Subproject)
  unfolding assign_other
  assign_subproject = do
    s ← map_err repository.get_subproject (λ _. not_found "subproject" place.subproject_id)
    if s.assignee === assignee then ok ([], s) else assign_other s
