-- ===== src/Project/EventSourcing.antt =====
-- api/src/service/domain/workflow/project_eventsourcing.ts: projects out of the stream of events.
pub mod Keeps
pub mod Invariant
pub mod Whole
pub mod Stream
use text.Mathlib.Text.{starts_with}
use tru_budget.Base.{String, none, some, List, [], ◌∷◌, ◌++◌, if◌then◌else◌}
use tru_budget.Result.{
  Failure, Result, ok, err, ◌>>=◌, map_err, verror, wrapped, event_sourcing_error,
}
use tru_budget.Dict.{Dict, lookup, insert}
use tru_budget.Joi.{Joi}
use tru_budget.Event.{
  BusinessEvent, type_of, project_created, project_updated, project_assigned, project_closed,
  project_permission_granted, project_permission_revoked, project_projected_budget_updated,
  project_projected_budget_deleted,
}
use tru_budget.Project.{Project, TraceEvent, validate}
use tru_budget.Project.Created.{create_from}
use tru_budget.Project.Updated
use tru_budget.Project.Assigned
use tru_budget.Project.Closed
use tru_budget.Project.PermissionGranted
use tru_budget.Project.PermissionRevoked
use tru_budget.Project.BudgetUpdated
use tru_budget.Project.BudgetDeleted

abbrev pub new_trace_event : Project → BusinessEvent → TraceEvent
new_trace_event p event = record {
  entity_id = p.id;
  business_event = event;
  display_name = p.display_name;
}

-- `getProjectId`
unfoldable pub get_project_id : BusinessEvent → Result String
get_project_id (project_updated _ project_id _) = ok project_id
get_project_id (project_assigned _ project_id _) = ok project_id
get_project_id (project_closed _ project_id) = ok project_id
get_project_id (project_permission_granted _ project_id _ _) = ok project_id
get_project_id (project_permission_revoked _ project_id _ _) = ok project_id
get_project_id (project_projected_budget_updated _ project_id _) = ok project_id
get_project_id (project_projected_budget_deleted _ project_id _ _) = ok project_id
get_project_id event =
    err (verror ("cannot find project ID in event of type " ∷ type_of event ∷ []))

-- `getEventModule`, with the event given to the module's `mutate`
unfoldable pub get_event_module : BusinessEvent → Result (Project → Result Project)
get_event_module (project_updated header project_id update) =
    ok (Updated.mutate header project_id update)
get_event_module (project_assigned header project_id assignee) =
    ok (Assigned.mutate header project_id assignee)
get_event_module (project_closed header project_id) = ok (Closed.mutate header project_id)
get_event_module (project_permission_granted header project_id permission grantee) =
    ok (PermissionGranted.mutate header project_id permission grantee)
get_event_module (project_permission_revoked header project_id permission revokee) =
    ok (PermissionRevoked.mutate header project_id permission revokee)
get_event_module (project_projected_budget_updated header project_id budget) =
    ok (BudgetUpdated.mutate header project_id budget)
get_event_module (project_projected_budget_deleted header project_id organization currency_code) =
    ok (BudgetDeleted.mutate header project_id organization currency_code)
get_event_module event = err (verror ("unknown project event " ∷ type_of event ∷ []))

module _ (joi : Joi) where
  -- `newProjectFromEvent`
  unfoldable pub new_project_from_event : Project → BusinessEvent → Result Project
  new_project_from_event p event = do
    mutate ← get_event_module event
    copy ← map_err (mutate (record p { log = [] })) event_sourcing_error
    valid ← map_err (validate joi copy) event_sourcing_error
    ok (record valid { log = p.log })

  -- `get`
  unfoldable pub get_item : Dict Project → String → Result Project
  get_item items id = elim (lookup id items) [
    | none ↦ err (verror ("project " ∷ id ∷ " not yet initialized" ∷ []))
    | some p ↦ ok p
  ]

  -- the branch of `sourceEvent` for events without a project's ID
  unfoldable pub source_creation : BusinessEvent → Result Project
  source_creation (project_created header initial) =
      map_err (create_from joi header initial)
        (λ e. wrapped e ("could not create project from event" ∷ []))
  source_creation event = err (
      verror (
        "event "
        ∷ type_of event
        ∷ " is not of type \"project_created\" but also does not include a project ID"
        ∷ []))

  -- `sourceEvent`
  unfoldable pub source_event : BusinessEvent → Dict Project → Result Project
  source_event event items = elim (get_project_id event) [
    | err _ ↦ source_creation event
    | ok id ↦ do
      p ← map_err (get_item items id) (λ _.
          verror ("project ID " ∷ id ∷ " found in event " ∷ type_of event ∷ " is invalid" ∷ []))
      new_project_from_event p event
  ]

  -- `project.log.push(newTraceEvent(project, event)); projects.set(…)`
  abbrev pub store : BusinessEvent → Project → Dict Project → Dict Project
  store event p items = insert p.id (record p { log = p.log ++ new_trace_event p event ∷ [] }) items

  abbrev pub recorded :
      BusinessEvent → Result Project → Dict Project × List Failure → Dict Project × List Failure
  recorded event (err e) (items, errors) = (items, errors ++ e ∷ [])
  recorded event (ok p) (items, errors) = (store event p items, errors)

  -- the body of the loop of `sourceProjects`
  unfoldable pub source_step :
      BusinessEvent → Dict Project × List Failure → Dict Project × List Failure
  source_step event state =
      if starts_with (type_of event) "project_"
      then recorded event (source_event event state.0) state
      else state

  unfoldable pub source_from :
      List BusinessEvent → Dict Project × List Failure → Dict Project × List Failure
  source_from [] state = state
  source_from (event ∷ events) state = source_from events (source_step event state)

  -- `sourceProjects`
  unfoldable pub source_projects : List BusinessEvent → Dict Project → Dict Project × List Failure
  source_projects events origin = source_from events (origin, [])
