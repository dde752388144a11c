-- ===== src/Organization/User/Availability.antt =====
-- The commands user_enable.ts, user_disable.ts, user_permission_grant.ts and
-- user_permission_revoke.ts of api/src/service/domain/organization; lodash's `isEqual` is a parameter.
use tru_budget.Base.{String, Bool, not, ◌||◌, ◌===◌, List, [], ◌∷◌, if◌then◌else◌}
use tru_budget.Result.{
  Failure, Result, ok, ◌>>=◌, ◌>>◌, map_err, require, joi_error, wrapped, not_found, not_authorized,
  precondition_error, invalid_command,
}
use tru_budget.Joi.{Joi, id_text}
use tru_budget.Intents.{Intent}
use tru_budget.Event.{Identity, Permissions, BusinessEvent}
use tru_budget.Identity.{ServiceUser}
use tru_budget.Notification.{Ctx, header_at}
use tru_budget.GlobalPermissions
use tru_budget.GlobalPermissions.{GlobalPermissions}
use tru_budget.Organization.User.{UserRecord, permits}
use tru_budget.Organization.User.Events.{
  create_enabled, create_disabled, create_permission_granted, create_permission_revoked,
}
use tru_budget.Organization.User.EventSourcing.{new_user_from_event}
use tru_budget.Organization.User.Assignments.{UserAssignments, has_assignments, to_string}

-- The repositories of the commands; `message_of` is the message of a validation's error.
pub record Repository : Type 0 where
  pub get_user : String → Result UserRecord
  pub get_global_permissions : Result GlobalPermissions
  pub get_user_assignments : String → Result UserAssignments
  pub message_of : Failure → List String

module _ (joi : Joi) (is_equal : Permissions → Permissions → Bool) (ctx : Ctx)
    (issuer : ServiceUser) (issuer_organization : String) (repository : Repository) where
  -- `validate(data)`, where the error becomes a PreconditionError
  abbrev pub require_request : String → Result (Unit {0})
  require_request user_id =
      require (id_text joi user_id) (precondition_error (repository.message_of joi_error))

  -- the end of each command: the event is returned if it changes the permissions
  unfoldable pub emit_change : UserRecord → BusinessEvent → Result (List BusinessEvent)
  emit_change user event = do
    updated_user ← map_err (new_user_from_event joi user event) invalid_command
    ok (if is_equal user.permissions updated_user.permissions then [] else event ∷ [])

  -- the checks of the issuer, by the global permissions
  abbrev pub require_global : Intent → UserRecord → GlobalPermissions → Result (Unit {0})
  require_global intent user global_permissions = do
    require (user.organization === issuer_organization) (not_authorized issuer.id intent)
    require
        ((issuer.id === "root")
          || GlobalPermissions.permits global_permissions issuer (intent ∷ []))
        (not_authorized issuer.id intent)

  -- `enableUser`
  unfoldable pub enable_user : String → Result (List BusinessEvent)
  enable_user user_id = do
    global_permissions ←
        map_err repository.get_global_permissions
          (λ e. wrapped e ("get global permissions failed" ∷ []))
    user_enabled ←
        map_err (create_enabled joi (header_at ctx 0 issuer.id) user_id)
          (λ e. wrapped e ("failed to create user enabled event" ∷ []))
    require_request user_id
    user ←
        map_err (repository.get_user user_id) (λ _. precondition_error ("Error getting user" ∷ []))
    require_global "global.enableUser" user global_permissions
    emit_change user user_enabled

  -- the test of the assignments in `disableUser`
  unfoldable pub require_unassigned : String → Result (Unit {0})
  require_unassigned user_id = do
    assignments ←
        map_err (repository.get_user_assignments user_id)
          (λ e. wrapped e ("failed to get assignments" ∷ []))
    require (not (has_assignments assignments))
        (precondition_error ("Error - This user is still assigned to: " ∷ to_string assignments))

  -- `disableUser`
  unfoldable pub disable_user : String → Result (List BusinessEvent)
  disable_user user_id = do
    global_permissions ←
        map_err repository.get_global_permissions
          (λ e. wrapped e ("get global permissions failed" ∷ []))
    user_disabled ←
        map_err (create_disabled joi (header_at ctx 0 issuer.id) user_id)
          (λ e. wrapped e ("failed to create user disabled event" ∷ []))
    require_request user_id
    user ←
        map_err (repository.get_user user_id) (λ _. precondition_error ("Error getting user" ∷ []))
    require_global "global.disableUser" user global_permissions
    require (not (issuer.id === user.id))
        (precondition_error ("Error - You cannot disable yourself" ∷ []))
    require_unassigned user_id
    emit_change user user_disabled

  -- the checks of the issuer, by the user's own permissions
  abbrev pub require_own : Intent → Intent → UserRecord → Result (Unit {0})
  require_own intent needed user = do
    require (user.organization === issuer_organization) (not_authorized issuer.id intent)
    require ((issuer.id === "root") || permits user issuer (needed ∷ []))
        (not_authorized issuer.id needed)

  -- `grantUserPermission`
  unfoldable pub grant_user_permission : String → Identity → Intent → Result (List BusinessEvent)
  grant_user_permission user_id grantee intent = do
    user ← map_err (repository.get_user user_id) (λ _. not_found "user" user_id)
    permission_granted ←
        map_err (create_permission_granted joi (header_at ctx 0 issuer.id) user_id intent grantee)
          (λ e. wrapped e ("failed to create user permission granted event" ∷ []))
    require_own intent "user.intent.grantPermission" user
    emit_change user permission_granted

  -- `revokeUserPermission`
  unfoldable pub revoke_user_permission : String → Identity → Intent → Result (List BusinessEvent)
  revoke_user_permission user_id revokee intent = do
    user ← map_err (repository.get_user user_id) (λ _. not_found "user" user_id)
    permission_revoked ←
        map_err (create_permission_revoked joi (header_at ctx 0 issuer.id) user_id intent revokee)
          (λ e. wrapped e ("failed to create permission revoked event" ∷ []))
    require_own intent "user.intent.revokePermission" user
    emit_change user permission_revoked
