-- ===== src/Subproject/EventSourcing.antt =====
-- api/src/service/domain/workflow/subproject_eventsourcing.ts: subprojects out of the stream of events.
pub mod Keeps
pub mod Invariant
pub mod Whole
pub mod Stream
use text.Mathlib.Text.{starts_with}
use tru_budget.Base.{String, ◌||◌, none, some, List, [], ◌∷◌, ◌++◌, ◌===◌, if◌then◌else◌}
use tru_budget.Result.{
  Failure, Result, ok, err, ◌>>=◌, map_err, verror, wrapped, event_sourcing_error,
}
use tru_budget.Dict.{Dict, lookup, insert}
use tru_budget.Joi.{Joi}
use tru_budget.Event.{
  BusinessEvent, type_of, subproject_created, subproject_updated, subproject_assigned,
  subproject_closed, subproject_permission_granted, subproject_permission_revoked,
  subproject_projected_budget_updated, subproject_projected_budget_deleted, workflowitems_reordered,
}
use tru_budget.Subproject.{Subproject, TraceEvent, validate}
use tru_budget.Subproject.Created.{create_from}
use tru_budget.Subproject.Updated
use tru_budget.Subproject.Assigned
use tru_budget.Subproject.Closed
use tru_budget.Subproject.PermissionGranted
use tru_budget.Subproject.PermissionRevoked
use tru_budget.Subproject.BudgetUpdated
use tru_budget.Subproject.BudgetDeleted
use tru_budget.Subproject.Reordered

abbrev pub new_trace_event : Subproject → BusinessEvent → TraceEvent
new_trace_event s event = record {
  entity_id = s.id;
  business_event = event;
  display_name = some s.display_name;
}

-- `getSubprojectId`
unfoldable pub get_subproject_id : BusinessEvent → Result String
get_subproject_id (subproject_updated _ place _) = ok place.subproject_id
get_subproject_id (subproject_assigned _ place _) = ok place.subproject_id
get_subproject_id (subproject_closed _ place) = ok place.subproject_id
get_subproject_id (subproject_permission_granted _ place _ _) = ok place.subproject_id
get_subproject_id (subproject_permission_revoked _ place _ _) = ok place.subproject_id
get_subproject_id (subproject_projected_budget_updated _ place _) = ok place.subproject_id
get_subproject_id (subproject_projected_budget_deleted _ place _ _) = ok place.subproject_id
get_subproject_id (workflowitems_reordered _ place _) = ok place.subproject_id
get_subproject_id event =
    err (verror ("cannot find subproject ID in event of type " ∷ type_of event ∷ []))

-- `getEventModule`, with the event given to the module's `mutate`
unfoldable pub get_event_module : BusinessEvent → Result (Subproject → Result Subproject)
get_event_module (subproject_updated header place update) = ok (Updated.mutate header place update)
get_event_module (subproject_assigned header place assignee) =
    ok (Assigned.mutate header place assignee)
get_event_module (subproject_closed header place) = ok (Closed.mutate header place)
get_event_module (subproject_permission_granted header place permission grantee) =
    ok (PermissionGranted.mutate header place permission grantee)
get_event_module (subproject_permission_revoked header place permission revokee) =
    ok (PermissionRevoked.mutate header place permission revokee)
get_event_module (subproject_projected_budget_updated header place budget) =
    ok (BudgetUpdated.mutate header place budget)
get_event_module (subproject_projected_budget_deleted header place organization currency_code) =
    ok (BudgetDeleted.mutate header place organization currency_code)
get_event_module (workflowitems_reordered header place ordering) =
    ok (Reordered.mutate header place ordering)
get_event_module event = err (verror ("unknown subproject event " ∷ type_of event ∷ []))

module _ (joi : Joi) where
  -- `newSubprojectFromEvent`
  unfoldable pub new_subproject_from_event : Subproject → BusinessEvent → Result Subproject
  new_subproject_from_event s event = do
    mutate ← get_event_module event
    copy ← map_err (mutate (record s { log = [] })) event_sourcing_error
    valid ← map_err (validate joi copy) event_sourcing_error
    ok (record valid { log = s.log })

  -- `get`
  unfoldable pub get_item : Dict Subproject → String → Result Subproject
  get_item items id = elim (lookup id items) [
    | none ↦ err (verror ("subproject " ∷ id ∷ " not yet initialized" ∷ []))
    | some s ↦ ok s
  ]

  -- the branch of `sourceEvent` for events without a subproject's ID
  unfoldable pub source_creation : BusinessEvent → Result Subproject
  source_creation (subproject_created header project_id initial) =
      map_err (create_from joi header project_id initial)
        (λ e. wrapped e ("could not create subproject from event" ∷ []))
  source_creation event = err (
      verror (
        "event "
        ∷ type_of event
        ∷ " is not of type \"subproject_created\" but also does not include a subproject ID"
        ∷ []))

  -- `sourceEvent`
  unfoldable pub source_event : BusinessEvent → Dict Subproject → Result Subproject
  source_event event items = elim (get_subproject_id event) [
    | err _ ↦ source_creation event
    | ok id ↦ do
      s ← map_err (get_item items id) (λ _.
          verror ("subproject ID " ∷ id ∷ " found in event " ∷ type_of event ∷ " is invalid" ∷ []))
      new_subproject_from_event s event
  ]

  -- `subproject.log.push(newTraceEvent(subproject, event)); subprojects.set(…)`
  abbrev pub store : BusinessEvent → Subproject → Dict Subproject → Dict Subproject
  store event s items = insert s.id (record s { log = s.log ++ new_trace_event s event ∷ [] }) items

  abbrev pub recorded :
      BusinessEvent
      → Result Subproject
      → Dict Subproject × List Failure
      → Dict Subproject × List Failure
  recorded event (err e) (items, errors) = (items, errors ++ e ∷ [])
  recorded event (ok s) (items, errors) = (store event s items, errors)

  -- the body of the loop of `sourceSubprojects`
  unfoldable pub source_step :
      BusinessEvent → Dict Subproject × List Failure → Dict Subproject × List Failure
  source_step event state =
      if starts_with (type_of event) "subproject_" || (type_of event === "workflowitems_reordered")
      then recorded event (source_event event state.0) state
      else state

  unfoldable pub source_from :
      List BusinessEvent → Dict Subproject × List Failure → Dict Subproject × List Failure
  source_from [] state = state
  source_from (event ∷ events) state = source_from events (source_step event state)

  -- `sourceSubprojects`
  unfoldable pub source_subprojects :
      List BusinessEvent → Dict Subproject → Dict Subproject × List Failure
  source_subprojects events origin = source_from events (origin, [])
