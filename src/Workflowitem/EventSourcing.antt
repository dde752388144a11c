-- ===== src/Workflowitem/EventSourcing.antt =====
-- api/src/service/domain/workflow/workflowitem_eventsourcing.ts: workflowitems out of the stream of
-- events. Values are immutable here, so the deep copies of the source are the values themselves;
-- `mutate` is given a workflowitem without its log, which is put back behind it, as in the source.
pub mod Mutations
pub mod Keeps
pub mod Invariant
pub mod Whole
pub mod History
pub mod Stream
use text.Mathlib.Text.{starts_with}
use tru_budget.Base.{
  String, Bool, true, false, Option, none, some, List, [], ◌∷◌, ◌++◌, if◌then◌else◌,
}
use tru_budget.Result.{
  Failure, Result, ok, err, ◌>>=◌, map_err, verror, wrapped, event_sourcing_error,
}
use tru_budget.Dict.{Dict, lookup, insert, values}
use tru_budget.Joi.{Joi}
use tru_budget.Event.{
  WorkflowitemPlace, BusinessEvent, workflowitem_created, workflowitem_updated,
  workflowitem_assigned, workflowitem_closed, workflowitem_permission_granted,
  workflowitem_permission_revoked, workflowitem_document_validated, type_of,
}
use tru_budget.Workflowitem.{Workflowitem, TraceEvent, Snapshot, validate}
use tru_budget.Workflowitem.Created.{create_from}
use tru_budget.Workflowitem.Updated
use tru_budget.Workflowitem.Assigned
use tru_budget.Workflowitem.Closed
use tru_budget.Workflowitem.PermissionGranted
use tru_budget.Workflowitem.PermissionRevoked
use tru_budget.Workflowitem.DocumentValidated

-- The snapshot holds the fields of the workflowitem as they are after the event.
abbrev pub new_trace_event : Workflowitem → BusinessEvent → TraceEvent
new_trace_event w event = record {
  entity_id = w.id;
  business_event = event;
  snapshot = record {
    display_name = some w.display_name;
    amount = w.amount;
    currency = w.currency;
    amount_type = some w.amount_type;
  };
}

-- `getWorkflowitemId`
unfoldable pub get_workflowitem_id : BusinessEvent → Result String
get_workflowitem_id (workflowitem_document_validated _ place _ _) = ok place.workflowitem_id
get_workflowitem_id (workflowitem_updated _ place _) = ok place.workflowitem_id
get_workflowitem_id (workflowitem_assigned _ place _) = ok place.workflowitem_id
get_workflowitem_id (workflowitem_closed _ place _) = ok place.workflowitem_id
get_workflowitem_id (workflowitem_permission_granted _ place _ _) = ok place.workflowitem_id
get_workflowitem_id (workflowitem_permission_revoked _ place _ _) = ok place.workflowitem_id
get_workflowitem_id event =
    err (verror ("cannot find workflowitem ID in event of type " ∷ type_of event ∷ []))

-- `getEventModule`, with the event given to the module's `mutate`
unfoldable pub get_event_module : BusinessEvent → Result (Workflowitem → Result Workflowitem)
get_event_module (workflowitem_document_validated header place is_valid document_id) =
    ok (DocumentValidated.mutate header place is_valid document_id)
get_event_module (workflowitem_updated header place update) =
    ok (Updated.mutate header place update)
get_event_module (workflowitem_assigned header place assignee) =
    ok (Assigned.mutate header place assignee)
get_event_module (workflowitem_closed header place reject_reason) =
    ok (Closed.mutate header place reject_reason)
get_event_module (workflowitem_permission_granted header place permission grantee) =
    ok (PermissionGranted.mutate header place permission grantee)
get_event_module (workflowitem_permission_revoked header place permission revokee) =
    ok (PermissionRevoked.mutate header place permission revokee)
get_event_module event = err (verror ("unknown workflowitem event " ∷ type_of event ∷ []))

module _ (joi : Joi) where
  -- `newWorkflowitemFromEvent`
  unfoldable pub new_workflowitem_from_event : Workflowitem → BusinessEvent → Result Workflowitem
  new_workflowitem_from_event w event = do
    mutate ← get_event_module event
    copy ←
        map_err (mutate (record w { log = [] }))
          (λ e. wrapped (event_sourcing_error e) ("mutation of workflowitem failed" ∷ []))
    valid ←
        map_err (validate joi copy)
          (λ e. wrapped (event_sourcing_error e) ("validation of workflowitem failed" ∷ []))
    ok (record valid { log = w.log })

  -- `get`
  unfoldable pub get_item : Dict Workflowitem → String → Result Workflowitem
  get_item items id = elim (lookup id items) [
    | none ↦ err (verror ("workflowitem " ∷ id ∷ " not yet initialized" ∷ []))
    | some w ↦ ok w
  ]

  -- the branch of `sourceEvent` for events without a workflowitem's ID
  unfoldable pub source_creation : BusinessEvent → Result Workflowitem
  source_creation (workflowitem_created header place initial) =
      map_err (create_from joi header place initial)
        (λ e. wrapped e ("could not create workflowitem from event" ∷ []))
  source_creation event = err (
      verror (
        "event "
        ∷ type_of event
        ∷ " is not of type \"workflowitem_created\" but also does not include a workflowitem ID"
        ∷ []))

  -- `sourceEvent`
  unfoldable pub source_event : BusinessEvent → Dict Workflowitem → Result Workflowitem
  source_event event items = elim (get_workflowitem_id event) [
    | err _ ↦ source_creation event
    | ok id ↦ do
      w ← map_err (get_item items id) (λ _.
          verror
            ("workflowitem ID " ∷ id ∷ " found in event " ∷ type_of event ∷ " is invalid" ∷ []))
      new_workflowitem_from_event w event
  ]

  -- `workflowitem.log.push(newTraceEvent(workflowitem, event)); items.set(…)`
  abbrev pub store : BusinessEvent → Workflowitem → Dict Workflowitem → Dict Workflowitem
  store event w items = insert w.id (record w { log = w.log ++ new_trace_event w event ∷ [] }) items

  abbrev pub recorded :
      BusinessEvent
      → Result Workflowitem
      → Dict Workflowitem × List Failure
      → Dict Workflowitem × List Failure
  recorded event (err e) (items, errors) = (items, errors ++ e ∷ [])
  recorded event (ok w) (items, errors) = (store event w items, errors)

  -- the body of the loop of `sourceWorkflowitems`
  unfoldable pub source_step :
      BusinessEvent → Dict Workflowitem × List Failure → Dict Workflowitem × List Failure
  source_step event state =
      if starts_with (type_of event) "workflowitem_"
      then recorded event (source_event event state.0) state
      else state

  unfoldable pub source_from :
      List BusinessEvent → Dict Workflowitem × List Failure → Dict Workflowitem × List Failure
  source_from [] state = state
  source_from (event ∷ events) state = source_from events (source_step event state)

  -- `sourceWorkflowitems`; the map from which the values are returned is kept, too.
  unfoldable pub source_workflowitems :
      List BusinessEvent → Dict Workflowitem → Dict Workflowitem × List Failure
  source_workflowitems events origin = source_from events (origin, [])
