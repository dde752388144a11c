-- ===== src/Commands/RevokeProjectPermission.antt =====
-- api/src/service/domain/workflow/project_permission_revoke.ts; lodash's `isEqual` is a parameter.
use tru_budget.Base.{String, Bool, List, [], ◌∷◌, if◌then◌else◌}
use tru_budget.Result.{Result, ok, ◌>>=◌, ◌>>◌, map_err, wrapped, not_found, invalid_command}
use tru_budget.Joi.{Joi}
use tru_budget.Intents.{Intent}
use tru_budget.Event.{Identity, Permissions, BusinessEvent}
use tru_budget.Identity.{ServiceUser}
use tru_budget.Notification.{Ctx, header_at}
use tru_budget.Project.{Project}
use tru_budget.Project.PermissionRevoked
use tru_budget.Project.EventSourcing.{new_project_from_event}
use tru_budget.Commands.{require_permission}
use tru_budget.Commands.LastUser.{keep_last_user}

pub record Repository : Type 0 where
  pub get_project : String → Result Project

module _ (joi : Joi) (is_equal : Permissions → Permissions → Bool) (ctx : Ctx)
    (issuer : ServiceUser) (project_id : String) (repository : Repository) where
  -- `revokeProjectPermission`: the event is only emitted if it changes the permissions.
  unfoldable pub revoke_project_permission : Identity → Intent → Result (List BusinessEvent)
  revoke_project_permission revokee intent = do
    p ← map_err (repository.get_project project_id) (λ _. not_found "project" project_id)
    event ←
        map_err
          (PermissionRevoked.create_event joi (header_at ctx 0 issuer.id) project_id intent revokee)
          (λ e. wrapped e ("failed to create permission revoked event" ∷ []))
    require_permission issuer "project.intent.revokePermission" p.permissions
    updated ← map_err (new_project_from_event joi p event) invalid_command
    keep_last_user "project.intent.grantPermission" intent p.permissions
    if is_equal p.permissions updated.permissions then ok [] else ok (event ∷ [])
