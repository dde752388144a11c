-- ===== src/Tests/Closing.antt =====
-- Closing a workflowitem at sample data.
use tru_budget.Base.{ℕ, ◌≡◌, refl, String, Option, some, none, List, [], ◌∷◌}
use tru_budget.Result.{ok}
use tru_budget.Regex.{test}
use tru_budget.Money.{money_amount}
use tru_budget.Event.{BusinessEvent, workflowitem_closed, notification_created}
use tru_budget.Notification.{header_at, create_event, notify_from, notify}
use tru_budget.Workflowitem.{schema, validate}
use tru_budget.Workflowitem.Closed
use tru_budget.Workflowitem.EventSourcing.{get_event_module, new_workflowitem_from_event}
use tru_budget.Workflowitem.Ordering.{sort_workflowitems}
use tru_budget.Commands.CloseWorkflowitem.{
  Repository, check_closer, previous_closed, close_open, close_found, close_workflowitem,
}
use tru_budget.Commands.CloseWorkflowitem.Guards.{Outcome, close_workflowitem-Outcome}
use tru_budget.Tests.{joi, ctx, mia, item, place_of, subproject}

abbrev repository : Repository
repository = record {
  get_workflowitems = λ project_id subproject_id. ok (item "w1" ∷ item "w2" ∷ []);
  get_users_for_identity = λ identity. ok (identity ∷ "tom" ∷ []);
  get_subproject = λ project_id subproject_id. ok subproject;
  apply_workflowitem_type = λ event w. ok [];
}

abbrev dates : String → Option ℕ
dates s = some 20230401

abbrev close_event : BusinessEvent
close_event = workflowitem_closed (header_at ctx 0 "mia") (place_of "w2") none

abbrev events : List BusinessEvent
events =
    close_event
    ∷ notification_created (header_at ctx 2 "mia") "u" "tom" close_event (some "p") none none
    ∷ []

closes_w2 : close_workflowitem joi ctx mia (place_of "w2") repository none dates ≡ ok events
unfolding close_workflowitem sort_workflowitems close_found close_open Closed.create_event
    check_closer previous_closed new_workflowitem_from_event get_event_module validate schema
    Closed.mutate notify notify_from create_event money_amount test
closes_w2 = refl

close_workflowitem-Outcome_example :
    Outcome joi ctx mia (place_of "w2") repository none dates events
close_workflowitem-Outcome_example =
    close_workflowitem-Outcome joi ctx mia (place_of "w2") repository none dates closes_w2
