-- ===== src/Budgets/Laws.antt =====
-- The list of budgets as a map from an organization and a currency to a value.
use tru_budget.Base.{
  ◌≡◌, refl, String, ◌&&◌, Option, none, some, List, [], ◌∷◌, arith, Bool-cases, ◌===◌,
  if◌then◌else◌, inl, inr,
}
use text.Mathlib.TextEquality.{eq_iff}
use tru_budget.Event.{ProjectedBudget}
use tru_budget.Budgets.{is_budget_of, update_budget, delete_budget}

-- The value of the first budget of the organization in the currency.
abbrev pub budget_value : String → String → List ProjectedBudget → Option String
budget_value organization currency_code [] = none
budget_value organization currency_code (b ∷ bs) =
    if is_budget_of organization currency_code b
    then some b.value
    else budget_value organization currency_code bs

-- No organization has two budgets in one currency.
abbrev pub HasOneEach : List ProjectedBudget → Type 0
HasOneEach [] = Unit
HasOneEach (b ∷ bs) = (budget_value b.organization b.currency_code bs ≡ none) × HasOneEach bs

-- After an update the organization's budget in the currency has the new value, and every other
-- budget is what it was.
pub budget_value-update :
    (o c : String) (new : ProjectedBudget) (bs : List ProjectedBudget)
    → budget_value o c (update_budget new bs)
      ≡ (if is_budget_of o c new then some new.value else budget_value o c bs)
unfolding update_budget
budget_value-update o c new [] = refl
budget_value-update o c new (b ∷ bs) = ground (
  arith,
  eq_iff b.organization new.organization,
  eq_iff b.currency_code new.currency_code,
  eq_iff b.organization o,
  eq_iff b.currency_code c,
  eq_iff new.organization o,
  eq_iff new.currency_code c,
  budget_value-update o c new bs,
)

-- After a deletion the organization has no budget in the currency, and every other budget is what
-- it was.
pub budget_value-delete :
    (o c o' c' : String) (bs : List ProjectedBudget)
    → budget_value o c (delete_budget o' c' bs)
      ≡ (if (o === o') && (c === c') then none else budget_value o c bs)
unfolding delete_budget
budget_value-delete o c o' c' [] = ground arith
budget_value-delete o c o' c' (b ∷ bs) = ground (
  arith,
  eq_iff b.organization o,
  eq_iff b.currency_code c,
  eq_iff b.organization o',
  eq_iff b.currency_code c',
  eq_iff o o',
  eq_iff c c',
  budget_value-delete o c o' c' bs,
)

update_budget-HasOneEach :
    (new : ProjectedBudget) (bs : List ProjectedBudget)
    → HasOneEach bs
    → HasOneEach (update_budget new bs)
unfolding update_budget
update_budget-HasOneEach new [] h = (refl, tt)
update_budget-HasOneEach new (b ∷ bs) h =
    elim (Bool-cases (is_budget_of new.organization new.currency_code b)) [
      | inl own ↦ rw own h
      | inr other ↦ rw other (
        ground (
          arith,
          budget_value-update b.organization b.currency_code new bs,
          eq_iff b.organization new.organization,
          eq_iff b.currency_code new.currency_code,
          eq_iff new.organization b.organization,
          eq_iff new.currency_code b.currency_code,
        ),
        update_budget-HasOneEach new bs h.1,
      )
    ]

delete_budget-HasOneEach :
    (o c : String) (bs : List ProjectedBudget) → HasOneEach bs → HasOneEach (delete_budget o c bs)
unfolding delete_budget
delete_budget-HasOneEach o c [] h = tt
delete_budget-HasOneEach o c (b ∷ bs) h = elim (Bool-cases (is_budget_of o c b)) [
  | inl own ↦ rw own (delete_budget-HasOneEach o c bs h.1)
  | inr other ↦ rw other (
    ground (arith, budget_value-delete b.organization b.currency_code o c bs),
    delete_budget-HasOneEach o c bs h.1,
  )
]

-- An organization that has at most one budget in each currency still does after an update and
-- after a deletion.
pub budgets-HasOneEach :
    (new : ProjectedBudget) (o c : String) (bs : List ProjectedBudget)
    → HasOneEach bs
    → HasOneEach (update_budget new bs) × HasOneEach (delete_budget o c bs)
budgets-HasOneEach new o c bs h =
    (update_budget-HasOneEach new bs h, delete_budget-HasOneEach o c bs h)
