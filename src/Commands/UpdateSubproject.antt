-- ===== src/Commands/UpdateSubproject.antt =====
-- api/src/service/domain/workflow/subproject_update.ts; lodash's `isEqual` is a parameter.
-- The repository is asked for the subproject with the subproject's ID in both places, as in the source.
use tru_budget.Base.{String, Bool, List, [], ◌∷◌, if◌then◌else◌}
use tru_budget.Result.{Result, ok, ◌>>=◌, ◌>>◌, map_err, wrapped, not_found, invalid_command}
use tru_budget.Joi.{Joi}
use tru_budget.Event.{Identity, BusinessEvent, SubprojectPlace, SubprojectUpdate}
use tru_budget.Identity.{ServiceUser}
use tru_budget.Notification.{Ctx, header_at, notify}
use tru_budget.Subproject.{Subproject}
use tru_budget.Subproject.Updated
use tru_budget.Subproject.EventSourcing.{new_subproject_from_event}
use tru_budget.Commands.{require_permission}

pub record Repository : Type 0 where
  pub get_subproject : String → String → Result Subproject
  pub get_users_for_identity : Identity → Result (List String)

module _ (joi : Joi) (is_equal : Subproject → Subproject → Bool) (ctx : Ctx) (issuer : ServiceUser)
    (place : SubprojectPlace) (repository : Repository) where
  -- `isEqualIgnoringLog`
  abbrev pub is_equal_ignoring_log : Subproject → Subproject → Bool
  is_equal_ignoring_log a b = is_equal (record a { log = [] }) (record b { log = [] })

  -- the rest for an event that changes something
  unfoldable pub tell_update : Subproject → BusinessEvent → Result (List BusinessEvent)
  tell_update s event = do
    recipients ←
        map_err (repository.get_users_for_identity s.assignee)
          (λ e. wrapped e ("fetch users for " ∷ s.assignee ∷ " failed" ∷ []))
    notifications ←
        notify joi ctx "failed to create notification event" issuer.id event place.project_id
          recipients
    ok (event ∷ notifications)

  -- `updateSubproject`
  unfoldable pub update_subproject : SubprojectUpdate → Result (List BusinessEvent)
  unfolding tell_update
  update_subproject update = do
    s ←
        map_err (repository.get_subproject place.subproject_id place.subproject_id)
          (λ _. not_found "subproject" place.subproject_id)
    event ←
        map_err (Updated.create_event joi (header_at ctx 0 issuer.id) place update)
          (λ e. wrapped e ("failed to create event" ∷ []))
    require_permission issuer "subproject.update" s.permissions
    result ← map_err (new_subproject_from_event joi s event) invalid_command
    if is_equal_ignoring_log s result then ok [] else tell_update s event
