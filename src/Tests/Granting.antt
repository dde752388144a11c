-- ===== src/Tests/Granting.antt =====
-- Permissions and budgets at sample data.
use tru_budget.Base.{
  ◌≡◌, refl, not, ◌&&◌, ◌||◌, some, List, [], ◌∷◌, includes, ◌===◌, inl, inr, Bool-cases,
  if◌then◌else◌,
}
use tru_budget.Event.{Permissions, ProjectedBudget}
use tru_budget.Identity.{can_assume_identity, eligibles, permits}
use tru_budget.Identity.Grants.{grant, revoke}
use tru_budget.Identity.Laws.{permits-grant}
use tru_budget.Identity.Revocations.{HasDistinct, includes-revoke}
use tru_budget.Budgets.{is_budget_of, update_budget, delete_budget}
use tru_budget.Budgets.Laws.{budget_value, HasOneEach, budget_value-update, budgets-HasOneEach}
use tru_budget.Tests.{mia, permissions}

permits-grant_example :
    permits (grant "workflowitem.update" "reviewers" permissions) mia ("workflowitem.update" ∷ [])
    ≡ (permits permissions mia ("workflowitem.update" ∷ [])
        || (("workflowitem.update" === "workflowitem.update")
            && can_assume_identity mia "reviewers"))
permits-grant_example =
    permits-grant mia "workflowitem.update" "workflowitem.update" "reviewers" permissions

abbrev one_group : Permissions
one_group = ("workflowitem.list", "mia" ∷ "reviewers" ∷ []) ∷ []

one_group-HasDistinct : HasDistinct one_group
one_group-HasDistinct intent = elim (Bool-cases ("workflowitem.list" === intent)) [
  | inl e ↦ rw e (refl, (refl, tt))
  | inr e ↦ rw e tt
]

includes-revoke_example :
    includes (eligibles (revoke "workflowitem.list" "mia" one_group) "workflowitem.list") "mia" ≡ (
      includes (eligibles one_group "workflowitem.list") "mia"
      && not (("workflowitem.list" === "workflowitem.list") && ("mia" === "mia")))
includes-revoke_example =
    includes-revoke "mia" "mia" "workflowitem.list" "workflowitem.list" one_group
      one_group-HasDistinct

abbrev budgets : List ProjectedBudget
budgets =
    record { organization = "ACME"; value = "10"; currency_code = "EUR" }
    ∷ record { organization = "ACME"; value = "20"; currency_code = "USD" }
    ∷ []

abbrev more : ProjectedBudget
more = record { organization = "ACME"; value = "30"; currency_code = "USD" }

budget_value-update_example : budget_value "ACME" "USD" (update_budget more budgets) ≡ (
    if is_budget_of "ACME" "USD" more then some more.value else budget_value "ACME" "USD" budgets)
budget_value-update_example = budget_value-update "ACME" "USD" more budgets

budgets-HasOneEach_example :
    HasOneEach (update_budget more budgets) × HasOneEach (delete_budget "ACME" "EUR" budgets)
budgets-HasOneEach_example = budgets-HasOneEach more "ACME" "EUR" budgets (refl, (refl, tt))
