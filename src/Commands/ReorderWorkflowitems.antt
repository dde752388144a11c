-- ===== src/Commands/ReorderWorkflowitems.antt =====
-- api/src/service/domain/workflow/workflowitems_reorder.ts. `isEqual` of lodash, which is not part of
-- the repository, is a parameter.
pub mod Guards
use tru_budget.Base.{String, Bool, List, [], ◌∷◌, if◌then◌else◌}
use tru_budget.Result.{Result, ok, err, ◌>>=◌, ◌>>◌, map_err, wrapped, not_found, invalid_command}
use tru_budget.Joi.{Joi}
use tru_budget.Event.{SubprojectPlace, BusinessEvent}
use tru_budget.Identity.{ServiceUser}
use tru_budget.Notification.{Ctx, header_at}
use tru_budget.Subproject.{Subproject}
use tru_budget.Subproject.Reordered
use tru_budget.Subproject.EventSourcing.{new_subproject_from_event}
use tru_budget.Commands.{require_permission}

pub record Repository : Type 0 where
  pub get_subproject : String → String → Result Subproject

module _ (is_equal : List String → List String → Bool) (joi : Joi) (ctx : Ctx)
    (issuer : ServiceUser) (place : SubprojectPlace) (ordering : List String)
    (repository : Repository) where
  -- the command on a subproject with another ordering
  unfoldable pub reorder : Subproject → Result (List BusinessEvent)
  reorder subproject = do
    reorder_event ←
        map_err (Reordered.create_event joi (header_at ctx 0 issuer.id) place ordering)
          (λ e. wrapped e ("failed to create reorder event" ∷ []))
    require_permission issuer "subproject.reorderWorkflowitems" subproject.permissions
    result ← map_err (new_subproject_from_event joi subproject reorder_event) invalid_command
    ok (
        if is_equal subproject.workflowitem_ordering result.workflowitem_ordering
        then []
        else reorder_event ∷ [])

  -- `setWorkflowitemOrdering`
  unfoldable pub set_workflowitem_ordering : Result (List BusinessEvent)
  unfolding reorder
  set_workflowitem_ordering = do
    subproject ←
        map_err (repository.get_subproject place.project_id place.subproject_id)
          (λ _. not_found "subproject" place.subproject_id)
    if is_equal subproject.workflowitem_ordering ordering then ok [] else reorder subproject
