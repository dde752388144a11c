-- ===== src/Commands/CloseWorkflowitem.antt =====
-- api/src/service/domain/workflow/workflowitem_close.ts
pub mod Guards
use tru_budget.Base.{
  ℕ, String, Bool, true, false, not, Option, none, some, List, [], ◌∷◌, ◌++◌, find, includes, ◌===◌,
  if◌then◌else◌,
}
use tru_budget.Result.{
  Result, ok, err, ◌>>=◌, ◌>>◌, require, map_err, verror, wrapped, not_found, precondition_error,
  invalid_command,
}
use tru_budget.Joi.{Joi}
use tru_budget.Event.{opened, closed, WorkflowitemPlace, BusinessEvent}
use tru_budget.Identity.{ServiceUser}
use tru_budget.Notification.{Ctx, header_at, notify}
use tru_budget.Subproject.{Subproject}
use tru_budget.Workflowitem.{Workflowitem}
use tru_budget.Workflowitem.Closed
use tru_budget.Workflowitem.EventSourcing.{new_workflowitem_from_event}
use tru_budget.Workflowitem.Ordering.{view, is_closed, sort_workflowitems}

pub record Repository : Type 0 where
  pub get_workflowitems : String → String → Result (List Workflowitem)
  pub get_users_for_identity : String → Result (List String)
  pub get_subproject : String → String → Result Subproject
  pub apply_workflowitem_type : BusinessEvent → Workflowitem → Result (List BusinessEvent)

-- `validator !== undefined && validator !== closingUser.id`
abbrev pub is_other : Option String → String → Bool
is_other none id = false
is_other (some validator) id = not (validator === id)

-- the checks of the user
unfoldable pub check_closer : ServiceUser → Option String → List String → Result (Unit {0})
check_closer user validator assigned =
    if user.id === "root"
    then ok tt
    else if is_other validator user.id
    then err (
        precondition_error
          ("Only the validator of this subproject is allowed to close workflowitems" ∷ []))
    else require (includes assigned user.id)
        (precondition_error ("Only the assignee is allowed to close the workflowitem." ∷ []))

-- the loop over the workflowitems before the one to close
unfoldable pub previous_closed : String → List Workflowitem → Bool
previous_closed id [] = true
previous_closed id (item ∷ rest) =
    if item.id === id
    then true
    else if is_closed item.status
    then previous_closed id rest
    else false

module _ (joi : Joi) (ctx : Ctx) (user : ServiceUser) (place : WorkflowitemPlace)
    (repository : Repository) (reject_reason : Option String) where
  -- the command once the workflowitem is found and open
  unfoldable pub close_open :
      Subproject → List Workflowitem → Workflowitem → Result (List BusinessEvent)
  close_open subproject sorted w = do
    close_event ←
        map_err (Closed.create_event joi (header_at ctx 0 user.id) place reject_reason)
          (λ e. wrapped e ("failed to create event" ∷ []))
    assigned ←
        map_err (repository.get_users_for_identity w.assignee)
          (λ e. wrapped e ("fetch users for " ∷ w.assignee ∷ " failed" ∷ []))
    check_closer user subproject.validator assigned
    require (previous_closed place.workflowitem_id sorted)
        (precondition_error ("all previous workflowitems must be closed" ∷ []))
    result ← map_err (new_workflowitem_from_event joi w close_event) invalid_command
    notifications ←
        notify joi ctx "failed to create notification event" user.id close_event place.project_id
          assigned
    type_events ←
        map_err (repository.apply_workflowitem_type close_event w)
          (λ e. wrapped e ("failed to apply workflowitem type" ∷ []))
    ok (close_event ∷ (notifications ++ type_events))

  unfoldable pub close_found :
      Subproject → List Workflowitem → Option Workflowitem → Result (List BusinessEvent)
  unfolding close_open
  close_found subproject sorted none = err (not_found "workflowitem" place.workflowitem_id)
  close_found subproject sorted (some w) = elim w.status [
    | closed ↦ ok []
    | opened ↦ close_open subproject sorted w
  ]

  -- `closeWorkflowitem`
  unfoldable pub close_workflowitem : (String → Option ℕ) → Result (List BusinessEvent)
  unfolding close_found
  close_workflowitem dates = do
    workflowitems ←
        map_err (repository.get_workflowitems place.project_id place.subproject_id)
          (λ e. wrapped e ("failed to get workflowitems" ∷ []))
    subproject ←
        map_err (repository.get_subproject place.project_id place.subproject_id)
          (λ _. verror ("Couldn't get workflowitem ordering for " ∷ place.subproject_id ∷ []))
    let sorted = sort_workflowitems view dates subproject.workflowitem_ordering workflowitems
    close_found subproject sorted (find (λ item. item.id === place.workflowitem_id) sorted)
