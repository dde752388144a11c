-- ===== src/Commands/CloseSubproject.antt =====
-- api/src/service/domain/workflow/subproject_close.ts
pub mod Guards
use tru_budget.Base.{String, Bool, true, false, not, ◌||◌, List, [], ◌∷◌, any, includes, ◌===◌}
use tru_budget.Result.{
  Result, ok, err, ◌>>=◌, ◌>>◌, require, map_err, wrapped, not_found, precondition_error,
  invalid_command,
}
use tru_budget.Joi.{Joi}
use tru_budget.Event.{opened, closed, SubprojectPlace, BusinessEvent}
use tru_budget.Identity.{ServiceUser}
use tru_budget.Notification.{Ctx, header_at, notify}
use tru_budget.Subproject.{Subproject}
use tru_budget.Subproject.Closed
use tru_budget.Subproject.EventSourcing.{new_subproject_from_event}
use tru_budget.Workflowitem.{Workflowitem}
use tru_budget.Workflowitem.Ordering.{is_closed}

pub record Repository : Type 0 where
  pub get_subproject : String → String → Result Subproject
  pub get_workflowitems : String → String → Result (List Workflowitem)
  pub get_users_for_identity : String → Result (List String)

module _ (joi : Joi) (ctx : Ctx) (issuer : ServiceUser) (place : SubprojectPlace)
    (repository : Repository) where
  -- the command on a subproject that is open
  unfoldable pub close_open : Subproject → Result (List BusinessEvent × Subproject)
  close_open subproject = do
    subproject_closed ←
        map_err (Closed.create_event joi (header_at ctx 0 issuer.id) place)
          (λ e. wrapped e ("failed to create event" ∷ []))
    assigned_identities ←
        map_err (repository.get_users_for_identity subproject.assignee)
          (λ e. wrapped e ("fetch users for " ∷ subproject.assignee ∷ " failed" ∷ []))
    require ((issuer.id === "root") || includes assigned_identities issuer.id)
        (precondition_error ("Only the assignee is allowed to close the subproject." ∷ []))
    workflowitems ←
        map_err (repository.get_workflowitems place.project_id place.subproject_id) (λ _.
          precondition_error (
            "could not find workflowitems for subproject " ∷ place.subproject_id ∷ " of project "
            ∷ place.project_id ∷ []))
    require (not (any (λ (x : Workflowitem). not (is_closed x.status)) workflowitems))
        (precondition_error ("at least one workflowitem is not closed yet" ∷ []))
    result ← map_err (new_subproject_from_event joi subproject subproject_closed) invalid_command
    notifications ←
        notify joi ctx "failed to create event" issuer.id subproject_closed place.project_id
          assigned_identities
    ok (subproject_closed ∷ notifications, result)

  -- `closeSubproject`
  unfoldable pub close_subproject : Result (List BusinessEvent × Subproject)
  unfolding close_open
  close_subproject = do
    subproject ←
        map_err (repository.get_subproject place.project_id place.subproject_id)
          (λ _. not_found "subproject" place.subproject_id)
    elim subproject.status [ closed ↦ ok ([], subproject) | opened ↦ close_open subproject ]
