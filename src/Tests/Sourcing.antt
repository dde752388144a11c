-- ===== src/Tests/Sourcing.antt =====
-- The stream of events at sample data.
use tru_budget.Base.{◌≡◌, refl, String, true, some, none, List, [], ◌∷◌, All}
use tru_budget.Result.{ok}
use tru_budget.Regex.{test}
use tru_budget.Money.{money_amount}
use tru_budget.Dict.{Dict, lookup}
use tru_budget.Event.Checks.{business_event_ok}
use tru_budget.Identity.Grants.{grant}
use tru_budget.Workflowitem.{Workflowitem, schema, validate}
use tru_budget.Workflowitem.Created.{create_from}
use tru_budget.Workflowitem.Updated
use tru_budget.Workflowitem.Closed
use tru_budget.Workflowitem.PermissionGranted
use tru_budget.Workflowitem.EventSourcing.{
  get_event_module, get_item, get_workflowitem_id, new_workflowitem_from_event, source_creation,
  source_event, source_step, source_from, source_workflowitems,
}
use tru_budget.Workflowitem.EventSourcing.Mutations.{Keeps}
use tru_budget.Workflowitem.EventSourcing.Keeps.{IsValid, new_workflowitem_from_event-Keeps}
use tru_budget.Workflowitem.EventSourcing.Invariant.{IsSourced, source_workflowitems-IsSourced}
use tru_budget.Workflowitem.EventSourcing.History.{Creates, Followed, source_workflowitems-Followed}
use tru_budget.Workflowitem.EventSourcing.Whole.{IsWhole, source_workflowitems-IsWhole}
use tru_budget.Tests.{joi, item, closed_item, closing, stream}

abbrev known : Dict Workflowitem
known = ("w1", item "w1") ∷ ("w2", item "w2") ∷ []

item-IsValid : (IsValid joi (item "w1")) × (IsValid joi (item "w2"))
unfolding schema money_amount test
item-IsValid = (refl, refl)

known-IsSourced : IsSourced joi known
known-IsSourced = ((refl, item-IsValid.0), ((refl, item-IsValid.1), tt))

closing-applies : new_workflowitem_from_event joi (item "w1") (closing "w1") ≡ ok (closed_item "w1")
unfolding new_workflowitem_from_event get_event_module validate schema Closed.mutate money_amount
    test
closing-applies = refl

new_workflowitem_from_event-Keeps_example :
    Keeps (item "w1") (closed_item "w1") × IsValid joi (closed_item "w1")
new_workflowitem_from_event-Keeps_example =
    new_workflowitem_from_event-Keeps joi (item "w1") (closing "w1") closing-applies

source_workflowitems-IsSourced_example : IsSourced joi (source_workflowitems joi stream known).0
source_workflowitems-IsSourced_example =
    source_workflowitems-IsSourced joi stream known known-IsSourced

stream-Creates : All (λ event. ¬ Creates event "w1") stream
stream-Creates = (
  (λ (_, _, _, e, _). cc),
  (
    (λ (_, _, _, e, _). cc),
    ((λ (_, _, _, e, _). cc), ((λ (_, _, _, e, _). cc), ((λ (_, _, _, e, _). cc), tt))),
  ),
)

source_workflowitems-Followed_example :
    Followed "w1" (item "w1") (source_workflowitems joi stream known).0
source_workflowitems-Followed_example =
    source_workflowitems-Followed joi "w1" stream known (item "w1") known-IsSourced refl
      stream-Creates

known-IsWhole : IsWhole joi known
unfolding schema money_amount test
known-IsWhole = ((refl, refl), ((refl, refl), tt))

stream-business_event_ok : All (λ event. business_event_ok joi event ≡ true) stream
stream-business_event_ok = (refl, (refl, (refl, (refl, (refl, tt)))))

source_workflowitems-IsWhole_example : IsWhole joi (source_workflowitems joi stream known).0
source_workflowitems-IsWhole_example =
    source_workflowitems-IsWhole joi stream known stream-business_event_ok known-IsWhole

status_of : String → Dict Workflowitem → List String
status_of id items = elim (lookup id items) [ none ↦ [] | some w ↦ w.display_name ∷ [] ]

-- The invalid name is refused.
name_kept : status_of "w1" (source_workflowitems joi stream known).0 ≡ "Bridge" ∷ []
unfolding status_of source_workflowitems source_from source_step source_event get_item
    get_workflowitem_id new_workflowitem_from_event get_event_module validate schema Updated.mutate
    Closed.mutate PermissionGranted.mutate source_creation create_from money_amount test
    Updated.apply_update grant
name_kept = refl
