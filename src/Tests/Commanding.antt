-- ===== src/Tests/Commanding.antt =====
-- Closing, assigning and reordering at sample data.
use tru_budget.Base.{
  ◌≡◌, refl, ◌↔◌, inl, inr, String, true, some, none, List, [], ◌∷◌, ===_self, ===_cases,
}
use tru_budget.Money.{money_amount, currency_code}
use tru_budget.Result.{ok}
use tru_budget.Event.{
  closed, BusinessEvent, workflowitem_assigned, subproject_closed, project_closed,
  workflowitems_reordered, notification_created,
}
use tru_budget.Identity.{ServiceUser}
use tru_budget.Notification.{header_at, notify}
use tru_budget.Workflowitem.{Workflowitem}
use tru_budget.Workflowitem.Assigned
use tru_budget.Workflowitem.EventSourcing.{new_workflowitem_from_event}
use tru_budget.Subproject.{Subproject}
use tru_budget.Subproject.Closed
use tru_budget.Subproject.Reordered
use tru_budget.Subproject.EventSourcing.{new_subproject_from_event}
use tru_budget.Project.{Project}
use tru_budget.Project.Closed as ProjectClosed
use tru_budget.Project.EventSourcing.{new_project_from_event}
use tru_budget.WorkflowitemTypes.{apply_workflowitem_type}
use tru_budget.Commands.{require_permission}
use tru_budget.Commands.CloseSubproject
use tru_budget.Commands.CloseSubproject.Guards as CloseSubprojectGuards
use tru_budget.Commands.CloseProject
use tru_budget.Commands.CloseProject.Guards as CloseProjectGuards
use tru_budget.Commands.AssignWorkflowitem
use tru_budget.Commands.AssignWorkflowitem.Guards as AssignWorkflowitemGuards
use tru_budget.Commands.ReorderWorkflowitems
use tru_budget.Commands.ReorderWorkflowitems.Guards as ReorderWorkflowitemsGuards
use tru_budget.Tests.{
  same_texts, joi, ctx, mia, home, item, closed_item, place_of, subproject, project,
}

abbrev root : ServiceUser
root = record { id = "root"; groups = [] }

abbrev notice : String → BusinessEvent → BusinessEvent
notice issuer event =
    notification_created (header_at ctx 1 issuer) "u" "tom" event (some "p") none none

abbrev subproject_store : CloseSubproject.Repository
subproject_store = record {
  get_subproject = λ project_id subproject_id. ok subproject;
  get_workflowitems = λ project_id subproject_id. ok (closed_item "w1" ∷ []);
  get_users_for_identity = λ identity. ok ("tom" ∷ "mia" ∷ []);
}

abbrev shut_subproject : Subproject
shut_subproject = record subproject { status = closed }

abbrev subproject_events : List BusinessEvent
subproject_events =
    let event = subproject_closed (header_at ctx 0 "mia") home in event ∷ notice "mia" event ∷ []

closes_subproject :
    CloseSubproject.close_subproject joi ctx mia home subproject_store
    ≡ ok (subproject_events, shut_subproject)
unfolding CloseSubproject.close_subproject CloseSubproject.close_open Closed.create_event
    new_subproject_from_event tru_budget.Subproject.EventSourcing.get_event_module Closed.mutate
    tru_budget.Subproject.validate tru_budget.Subproject.schema currency_code notify
closes_subproject = refl

close_subproject-Outcome_example :
    CloseSubprojectGuards.Outcome joi ctx mia home subproject_store subproject_events
      shut_subproject
close_subproject-Outcome_example =
    CloseSubprojectGuards.close_subproject-Outcome joi ctx mia home subproject_store
      closes_subproject

abbrev project_store : CloseProject.Repository
project_store = record {
  get_project = ok project;
  get_subprojects = λ project_id. ok (shut_subproject ∷ []);
  get_users_for_identity = λ identity. ok ("tom" ∷ "mia" ∷ []);
}

abbrev shut_project : Project
shut_project = record project { status = closed }

abbrev project_events : List BusinessEvent
project_events =
    let event = project_closed (header_at ctx 0 "mia") "p" in event ∷ notice "mia" event ∷ []

closes_project :
    CloseProject.close_project joi ctx mia "p" project_store ≡ ok (project_events, shut_project)
unfolding CloseProject.close_project CloseProject.close_open ProjectClosed.create_event
    new_project_from_event tru_budget.Project.EventSourcing.get_event_module ProjectClosed.mutate
    tru_budget.Project.validate tru_budget.Project.schema notify
closes_project = refl

close_project-Outcome_example :
    CloseProjectGuards.Outcome joi ctx mia "p" project_store project_events shut_project
close_project-Outcome_example =
    CloseProjectGuards.close_project-Outcome joi ctx mia "p" project_store closes_project

abbrev assign_store : AssignWorkflowitem.Repository
assign_store = record {
  get_workflowitem = λ id. ok (item "w1");
  get_users_for_identity = λ identity. ok (identity ∷ []);
  apply_workflowitem_type = λ event w. apply_workflowitem_type joi event ctx root w;
}

abbrev assign_events : List BusinessEvent
assign_events =
    let event = workflowitem_assigned (header_at ctx 0 "root") (place_of "w1") "tom" in
    event ∷ notice "root" event ∷ []

assigns_w1 :
    AssignWorkflowitem.assign_workflowitem joi ctx root "tom" (place_of "w1") assign_store
    ≡ ok (assign_events, item "w1")
unfolding AssignWorkflowitem.assign_workflowitem AssignWorkflowitem.assign_other
    Assigned.create_event require_permission new_workflowitem_from_event
    tru_budget.Workflowitem.EventSourcing.get_event_module Assigned.mutate
    tru_budget.Workflowitem.validate tru_budget.Workflowitem.schema money_amount notify
    apply_workflowitem_type
assigns_w1 = refl

assign_workflowitem-Outcome_example :
    (ok (item "w1") ≡ ok (item "w1"))
    × AssignWorkflowitemGuards.Outcome joi ctx root "tom"
        (place_of "w1")
        assign_store
        assign_events
        (item "w1")
assign_workflowitem-Outcome_example =
    AssignWorkflowitemGuards.assign_workflowitem-Outcome joi ctx root "tom" (place_of "w1")
      assign_store assigns_w1

same_texts_eq : (xs ys : List String) → same_texts xs ys ≡ true → xs ≡ ys
same_texts_eq [] [] h = refl
same_texts_eq [] (_ ∷ _) h = cc
same_texts_eq (_ ∷ _) [] h = cc
same_texts_eq (x ∷ xs) (y ∷ ys) h = elim (===_cases x y) [
  | inl (same, e) ↦ cc (same, same_texts_eq xs ys (rw e at h))
  | inr (_, e) ↦ cc (rw e at h)
]

same_texts_self : (xs : List String) → same_texts xs xs ≡ true
same_texts_self [] = refl
same_texts_self (x ∷ xs) = rw (===_self x) (same_texts_self xs)

same_texts_iff : (xs ys : List String) → (same_texts xs ys ≡ true) ↔ (xs ≡ ys)
same_texts_iff xs ys = (same_texts_eq xs ys, λ e. rw e (same_texts_self ys))

abbrev reorder_store : ReorderWorkflowitems.Repository
reorder_store = record { get_subproject = λ project_id subproject_id. ok subproject }

abbrev ordering : List String
ordering = "w1" ∷ "w2" ∷ []

abbrev reorder_events : List BusinessEvent
reorder_events = workflowitems_reordered (header_at ctx 0 "root") home ordering ∷ []

reorders :
    ReorderWorkflowitems.set_workflowitem_ordering same_texts joi ctx root home ordering
      reorder_store
    ≡ ok reorder_events
unfolding ReorderWorkflowitems.set_workflowitem_ordering ReorderWorkflowitems.reorder
    Reordered.create_event require_permission new_subproject_from_event
    tru_budget.Subproject.EventSourcing.get_event_module Reordered.mutate
    tru_budget.Subproject.validate tru_budget.Subproject.schema currency_code
reorders = refl

set_workflowitem_ordering-Outcome_example :
    (s : Subproject) × (ok subproject ≡ ok s)
    × ReorderWorkflowitemsGuards.Outcome same_texts joi ctx root home ordering reorder_store s
        reorder_events
set_workflowitem_ordering-Outcome_example =
    ReorderWorkflowitemsGuards.set_workflowitem_ordering-Outcome same_texts joi ctx root home
      ordering reorder_store same_texts_iff reorders
