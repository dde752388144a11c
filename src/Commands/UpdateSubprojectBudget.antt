-- ===== src/Commands/UpdateSubprojectBudget.antt =====
-- api/src/service/domain/workflow/subproject_projected_budget_update.ts; lodash's `isEqual` is a parameter.
use tru_budget.Base.{String, Bool, List, [], ◌∷◌, if◌then◌else◌}
use tru_budget.Result.{Result, ok, ◌>>=◌, ◌>>◌, map_err, wrapped, not_found, invalid_command}
use tru_budget.Joi.{Joi}
use tru_budget.Event.{Identity, BusinessEvent, SubprojectPlace, ProjectedBudget}
use tru_budget.Identity.{ServiceUser}
use tru_budget.Notification.{Ctx, header_at, notify}
use tru_budget.Subproject.{Subproject}
use tru_budget.Subproject.BudgetUpdated
use tru_budget.Subproject.EventSourcing.{new_subproject_from_event}
use tru_budget.Commands.{require_permission, users_of_assignee}

pub record Repository : Type 0 where
  pub get_subproject : String → String → Result Subproject
  pub get_users_for_identity : Identity → Result (List String)

module _ (joi : Joi) (is_equal : List ProjectedBudget → List ProjectedBudget → Bool) (ctx : Ctx)
    (issuer : ServiceUser) (place : SubprojectPlace) (repository : Repository) where
  -- the rest for an event that changes something
  unfoldable pub tell_budgets :
      Subproject → Subproject → BusinessEvent → Result (List BusinessEvent × List ProjectedBudget)
  tell_budgets s result event = do
    recipients ←
        map_err (users_of_assignee repository.get_users_for_identity s.assignee)
          (λ e. wrapped e ("fetch users for " ∷ s.assignee ∷ " failed" ∷ []))
    notifications ←
        notify joi ctx "failed to create  event" issuer.id event place.project_id recipients
    ok (event ∷ notifications, result.projected_budgets)

  -- `updateProjectedBudget`
  unfoldable pub update_projected_budget :
      String → String → String → Result (List BusinessEvent × List ProjectedBudget)
  unfolding tell_budgets
  update_projected_budget organization value currency_code = do
    s ←
        map_err (repository.get_subproject place.project_id place.subproject_id)
          (λ _. not_found "subproject" place.subproject_id)
    event ←
        map_err
          (BudgetUpdated.create_event joi (header_at ctx 0 issuer.id) place
            (record { organization = organization; value = value; currency_code = currency_code }))
          (λ e. wrapped e ("failed to create projected budget updated event" ∷ []))
    require_permission issuer "subproject.budget.updateProjected" s.permissions
    result ← map_err (new_subproject_from_event joi s event) invalid_command
    if is_equal s.projected_budgets result.projected_budgets
        then ok ([], result.projected_budgets)
        else tell_budgets s result event
