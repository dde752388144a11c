-- ===== src/Tests/Sorting.antt =====
-- The order of workflowitems at sample data.
use tru_budget.Base.{ℕ, ◌≡◌, refl, String, Option, some, List, [], ◌∷◌, map}
use tru_budget.Workflowitem.{Workflowitem, redact}
use tru_budget.Workflowitem.Ordering.{
  view, redacted_view, is_before, by_ordering_criteria, sort_workflowitems,
}
use tru_budget.Workflowitem.Ordering.Keys.{key, key_lt, by_ordering_criteria-key}
use tru_budget.Workflowitem.Ordering.Insertion.{Pairwise}
use tru_budget.Workflowitem.Ordering.Sorted.{StandsBefore, sort_workflowitems-sorted}
use tru_budget.Workflowitem.Ordering.Redacted.{sort_workflowitems-redact}
use tru_budget.Tests.{item, closed_item}

abbrev dates : String → Option ℕ
dates s = some 20230401

abbrev ordering : List String
ordering = "w3" ∷ "w2" ∷ []

abbrev workflowitems : List Workflowitem
workflowitems = item "w1" ∷ item "w2" ∷ item "w3" ∷ closed_item "w4" ∷ []

by_ordering_criteria-key_example :
    is_before (by_ordering_criteria dates ordering (0, view (item "w1")) (1, view (item "w2")))
    ≡ key_lt (key dates ordering (0, view (item "w1"))) (key dates ordering (1, view (item "w2")))
by_ordering_criteria-key_example =
    by_ordering_criteria-key dates ordering (0, view (item "w1")) (1, view (item "w2"))
      (20230401, refl) (20230401, refl)

sort_workflowitems-sorted_example :
    Pairwise
      (λ a b. StandsBefore dates ordering (view a) (view b))
      (sort_workflowitems view dates ordering workflowitems)
sort_workflowitems-sorted_example =
    sort_workflowitems-sorted view dates ordering workflowitems
      ((20230401, refl), ((20230401, refl), ((20230401, refl), ((20230401, refl), tt))))

sort_workflowitems-redact_example :
    sort_workflowitems redacted_view dates ordering (map redact workflowitems)
    ≡ map redact (sort_workflowitems view dates ordering workflowitems)
sort_workflowitems-redact_example = sort_workflowitems-redact dates ordering workflowitems

ids : List Workflowitem → List String
ids = map (λ (w : Workflowitem). w.id)

sorted_ids :
    ids (sort_workflowitems view dates ordering workflowitems) ≡ "w4" ∷ "w3" ∷ "w2" ∷ "w1" ∷ []
unfolding ids sort_workflowitems
sorted_ids = refl
