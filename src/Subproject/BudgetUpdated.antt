-- ===== src/Subproject/BudgetUpdated.antt =====
-- api/src/service/domain/workflow/subproject_projected_budget_updated.ts
use tru_budget.Base.{◌&&◌}
use tru_budget.Result.{Result, ok}
use tru_budget.Joi.{Joi}
use tru_budget.Event.{
  ProjectedBudget, Header, SubprojectPlace, BusinessEvent, subproject_projected_budget_updated,
}
use tru_budget.Event.Checks.{header_ok, subproject_place_ok, projected_budget_ok}
use tru_budget.Event.Create.{checked}
use tru_budget.Budgets.{update_budget}
use tru_budget.Subproject.{Subproject}

unfoldable pub create_event :
    Joi → Header → SubprojectPlace → ProjectedBudget → Result BusinessEvent
create_event joi header place budget =
    checked
      (header_ok joi header && subproject_place_ok joi place && projected_budget_ok joi budget)
      (subproject_projected_budget_updated header place budget)

unfoldable pub mutate : Header → SubprojectPlace → ProjectedBudget → Subproject → Result Subproject
mutate header place budget s =
    ok (record s { projected_budgets = update_budget budget s.projected_budgets })
