-- ===== src/Project/BudgetUpdated.antt =====
-- api/src/service/domain/workflow/project_projected_budget_updated.ts
use tru_budget.Base.{String, ◌&&◌}
use tru_budget.Result.{Result, ok}
use tru_budget.Joi.{Joi, id_text}
use tru_budget.Event.{ProjectedBudget, Header, BusinessEvent, project_projected_budget_updated}
use tru_budget.Event.Checks.{header_ok, projected_budget_ok}
use tru_budget.Event.Create.{checked}
use tru_budget.Budgets.{update_budget}
use tru_budget.Project.{Project}

unfoldable pub create_event : Joi → Header → String → ProjectedBudget → Result BusinessEvent
create_event joi header project_id budget =
    checked (header_ok joi header && id_text joi project_id && projected_budget_ok joi budget)
      (project_projected_budget_updated header project_id budget)

unfoldable pub mutate : Header → String → ProjectedBudget → Project → Result Project
mutate header project_id budget p =
    ok (record p { projected_budgets = update_budget budget p.projected_budgets })
