-- ===== src/Commands/Duplicates/Found.antt =====
-- No duplicate is found only where each organization has at most one budget in each currency.
use tru_budget.Base.{
  ◌≡◌, refl, ap, inl, inr, String, true, none, List, [], ◌∷◌, includes, Bool-cases, ===_eq,
  ===_self, arith,
}
use tru_budget.Event.{ProjectedBudget}
use tru_budget.Budgets.{is_budget_of}
use tru_budget.Budgets.Laws.{budget_value, HasOneEach}
use tru_budget.Commands.Duplicates.{budget_key, find_from, find_duplicate_budget_entry}

is_budget_of_eq :
    (o c : String) (b : ProjectedBudget)
    → is_budget_of o c b ≡ true
    → budget_key b.organization b.currency_code ≡ budget_key o c
is_budget_of_eq o c b h =
    let same_o : b.organization ≡ o = ===_eq _ _ (ground arith) in
    let same_c : b.currency_code ≡ c = ===_eq _ _ (ground arith) in rw (same_o, same_c) refl

find_from-budget_value :
    (seen : List String) (o c : String) (bs : List ProjectedBudget)
    → find_from seen bs ≡ none
    → includes seen (budget_key o c) ≡ true
    → budget_value o c bs ≡ none
find_from-budget_value seen o c [] clear known = refl
find_from-budget_value seen o c (b ∷ bs) clear known =
    elim (Bool-cases (includes seen (budget_key b.organization b.currency_code))) [
      | inl again ↦ cc (rw again at clear)
      | inr fresh ↦ elim (Bool-cases (is_budget_of o c b)) [
        | inl same ↦ cc (ap (includes seen) (is_budget_of_eq o c b same), fresh, known)
        | inr other ↦ rw other (
            find_from-budget_value (budget_key b.organization b.currency_code ∷ seen) o c bs
              (rw fresh at clear) (ground (arith, known)))
      ]
    ]

find_from-HasOneEach :
    (seen : List String) (bs : List ProjectedBudget) → find_from seen bs ≡ none → HasOneEach bs
find_from-HasOneEach seen [] clear = tt
find_from-HasOneEach seen (b ∷ bs) clear =
    let key = budget_key b.organization b.currency_code in
    elim (Bool-cases (includes seen (budget_key b.organization b.currency_code))) [
      | inl again ↦ cc (rw again at clear)
      | inr fresh ↦ (
        find_from-budget_value (key ∷ seen) b.organization b.currency_code bs (rw fresh at clear)
            (rw (===_self key) refl),
        find_from-HasOneEach (key ∷ seen) bs (rw fresh at clear),
      )
    ]

pub find_duplicate_budget_entry-HasOneEach :
    (bs : List ProjectedBudget) → find_duplicate_budget_entry bs ≡ none → HasOneEach bs
unfolding find_duplicate_budget_entry
find_duplicate_budget_entry-HasOneEach bs clear = find_from-HasOneEach [] bs clear
