-- ===== src/Project/BudgetDeleted.antt =====
-- api/src/service/domain/workflow/project_projected_budget_deleted.ts
use tru_budget.Base.{String, ◌&&◌}
use tru_budget.Result.{Result, ok}
use tru_budget.Joi.{Joi, id_text}
use tru_budget.Money.{currency_code}
use tru_budget.Event.{Header, BusinessEvent, project_projected_budget_deleted}
use tru_budget.Event.Checks.{header_ok}
use tru_budget.Event.Create.{checked}
use tru_budget.Budgets.{delete_budget}
use tru_budget.Project.{Project}

unfoldable pub create_event : Joi → Header → String → String → String → Result BusinessEvent
create_event joi header project_id organization code =
    checked
      (header_ok joi header
        && id_text joi project_id
        && joi.string organization
        && currency_code code)
      (project_projected_budget_deleted header project_id organization code)

unfoldable pub mutate : Header → String → String → String → Project → Result Project
mutate header project_id organization code p =
    ok (record p { projected_budgets = delete_budget organization code p.projected_budgets })
