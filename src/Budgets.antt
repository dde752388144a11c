-- ===== src/Budgets.antt =====
-- Projected budgets: what the `mutate` functions of the budget events do to the list that a project
-- or a subproject keeps (project_ and subproject_projected_budget_updated.ts and _deleted.ts under
-- api/src/service/domain/workflow share the text).
pub mod Laws
use tru_budget.Base.{String, Bool, ◌&&◌, not, List, [], ◌∷◌, keep, ◌===◌, if◌then◌else◌}
use tru_budget.Event.{ProjectedBudget}

-- `x.organization === organization && x.currencyCode === currencyCode`
abbrev pub is_budget_of : String → String → ProjectedBudget → Bool
is_budget_of organization currency_code b =
    (b.organization === organization) && (b.currency_code === currency_code)

-- The first budget of the organization in the currency gets the value; without one the new budget
-- goes to the end.
unfoldable pub update_budget : ProjectedBudget → List ProjectedBudget → List ProjectedBudget
update_budget new [] = new ∷ []
update_budget new (b ∷ bs) =
    if is_budget_of new.organization new.currency_code b
    then record b { value = new.value } ∷ bs
    else b ∷ update_budget new bs

unfoldable pub delete_budget : String → String → List ProjectedBudget → List ProjectedBudget
delete_budget organization currency_code =
    keep (λ b. not (is_budget_of organization currency_code b))
