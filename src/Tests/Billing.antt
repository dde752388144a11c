-- ===== src/Tests/Billing.antt =====
-- The money of a closed workflowitem at sample data.
use tru_budget.Base.{◌≡◌, refl, some, [], ◌∷◌}
use tru_budget.Dict.{lookup}
use tru_budget.Workflowitem.{Workflowitem}
use tru_budget.Workflowitem.EventSourcing.{source_workflowitems, new_trace_event}
use tru_budget.Workflowitem.Billing.{IsBilled, source_workflowitems-IsBilled}
use tru_budget.Tests.{joi, item, closed_item, creation, closing}

abbrev logged : Workflowitem
logged = record (closed_item "w1") {
  log =
      new_trace_event (item "w1") (creation "w1")
      ∷ new_trace_event (closed_item "w1") (closing "w1")
      ∷ [];
}

closes_w1 :
    lookup "w1" (source_workflowitems joi (creation "w1" ∷ closing "w1" ∷ []) []).0 ≡ some logged
unfolding source_workflowitems tru_budget.Workflowitem.EventSourcing.source_from
    tru_budget.Workflowitem.EventSourcing.source_step
    tru_budget.Workflowitem.EventSourcing.source_event
    tru_budget.Workflowitem.EventSourcing.get_workflowitem_id
    tru_budget.Workflowitem.EventSourcing.get_item
    tru_budget.Workflowitem.EventSourcing.source_creation
    tru_budget.Workflowitem.Created.create_from tru_budget.Workflowitem.validate
    tru_budget.Workflowitem.schema tru_budget.Money.money_amount
    tru_budget.Workflowitem.EventSourcing.new_workflowitem_from_event
    tru_budget.Workflowitem.EventSourcing.get_event_module tru_budget.Workflowitem.Closed.mutate
closes_w1 = refl

source_workflowitems-IsBilled_example : IsBilled joi logged
source_workflowitems-IsBilled_example =
    source_workflowitems-IsBilled joi (creation "w1" ∷ closing "w1" ∷ []) [] "w1" logged tt
      closes_w1
