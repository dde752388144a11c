-- ===== src/Commands/GrantSubprojectPermission.antt =====
-- api/src/service/domain/workflow/subproject_permission_grant.ts; lodash's `isEqual` is a parameter.
use tru_budget.Base.{String, Bool, List, [], ◌∷◌, if◌then◌else◌}
use tru_budget.Result.{Result, ok, ◌>>=◌, ◌>>◌, map_err, wrapped, not_found, invalid_command}
use tru_budget.Joi.{Joi}
use tru_budget.Intents.{Intent}
use tru_budget.Event.{Identity, Permissions, BusinessEvent, SubprojectPlace}
use tru_budget.Identity.{ServiceUser}
use tru_budget.Notification.{Ctx, header_at}
use tru_budget.Subproject.{Subproject}
use tru_budget.Subproject.PermissionGranted
use tru_budget.Subproject.EventSourcing.{new_subproject_from_event}
use tru_budget.Commands.{require_permission}

pub record Repository : Type 0 where
  pub get_subproject : String → String → Result Subproject

module _ (joi : Joi) (is_equal : Permissions → Permissions → Bool) (ctx : Ctx)
    (issuer : ServiceUser) (place : SubprojectPlace) (repository : Repository) where
  -- `grantSubprojectPermission`: the event is only emitted if it changes the permissions.
  unfoldable pub grant_subproject_permission : Identity → Intent → Result (List BusinessEvent)
  grant_subproject_permission grantee intent = do
    s ←
        map_err (repository.get_subproject place.project_id place.subproject_id)
          (λ _. not_found "subproject" place.subproject_id)
    event ←
        map_err
          (PermissionGranted.create_event joi (header_at ctx 0 issuer.id) place intent grantee)
          (λ e. wrapped e ("failed to create permission granted event" ∷ []))
    require_permission issuer "subproject.intent.grantPermission" s.permissions
    updated ← map_err (new_subproject_from_event joi s event) invalid_command
    if is_equal s.permissions updated.permissions then ok [] else ok (event ∷ [])
