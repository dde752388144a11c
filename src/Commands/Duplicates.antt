-- ===== src/Commands/Duplicates.antt =====
-- What project_create.ts and subproject_create.ts under api/src/service/domain/workflow share: the
-- search for two budgets of one organization in one currency, and the values by default.
pub mod Found
use Prim.Native.String.{◌++◌ as append}
use tru_budget.Base.{
  String, Bool, Option, none, some, List, [], ◌∷◌, ◌===◌, includes, map, if◌then◌else◌,
}
use tru_budget.Result.{Result, ok, err, already_exists}
use tru_budget.Intents.{Intent}
use tru_budget.Event.{ProjectedBudget, Permissions}

-- `${organization}_${currencyCode}`
abbrev pub budget_key : String → String → String
budget_key organization currency_code = append organization (append "_" currency_code)

abbrev pub find_from : List String → List ProjectedBudget → Option ProjectedBudget
find_from seen [] = none
find_from seen (b ∷ bs) =
    if includes seen (budget_key b.organization b.currency_code)
    then some b
    else find_from (budget_key b.organization b.currency_code ∷ seen) bs

-- `findDuplicateBudgetEntry`
unfoldable pub find_duplicate_budget_entry : List ProjectedBudget → Option ProjectedBudget
find_duplicate_budget_entry = find_from []

-- what the commands make of a bad entry
abbrev pub require_no_entry : Option ProjectedBudget → Result (Unit {0})
require_no_entry none = ok tt
require_no_entry (some b) =
    err (already_exists (append b.organization (append ":" b.currency_code)))

-- `newDefaultPermissionsFor`, with the intents of the entity
abbrev pub new_default_permissions_for : List Intent → String → Permissions
new_default_permissions_for intents user_id =
    if user_id === "root" then [] else map (λ intent. (intent, user_id ∷ [])) intents

-- `value || fallback` on a text, which is falsy where it is empty
abbrev pub text_or : Option String → String → String
text_or none fallback = fallback
text_or (some String.[]) fallback = fallback
text_or (some (String.◌∷◌ c s)) fallback = String.◌∷◌ c s

-- `value || fallback` on other values
abbrev pub value_or {ℓ} : {A : Type ℓ} → Option A → A → A
value_or none fallback = fallback
value_or (some a) fallback = a
