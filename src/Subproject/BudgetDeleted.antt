-- ===== src/Subproject/BudgetDeleted.antt =====
-- api/src/service/domain/workflow/subproject_projected_budget_deleted.ts
use tru_budget.Base.{String, ◌&&◌}
use tru_budget.Result.{Result, ok}
use tru_budget.Joi.{Joi}
use tru_budget.Money.{currency_code}
use tru_budget.Event.{Header, SubprojectPlace, BusinessEvent, subproject_projected_budget_deleted}
use tru_budget.Event.Checks.{header_ok, subproject_place_ok}
use tru_budget.Event.Create.{checked}
use tru_budget.Budgets.{delete_budget}
use tru_budget.Subproject.{Subproject}

unfoldable pub create_event :
    Joi → Header → SubprojectPlace → String → String → Result BusinessEvent
create_event joi header place organization code =
    checked
      (header_ok joi header
        && subproject_place_ok joi place
        && joi.string organization
        && currency_code code)
      (subproject_projected_budget_deleted header place organization code)

unfoldable pub mutate : Header → SubprojectPlace → String → String → Subproject → Result Subproject
mutate header place organization code s =
    ok (record s { projected_budgets = delete_budget organization code s.projected_budgets })
