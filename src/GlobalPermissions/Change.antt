-- ===== src/GlobalPermissions/Change.antt =====
-- The commands and events that change global permissions: api/src/service/domain/workflow/
-- global_permission_granted.ts, _revoked.ts, global_permission_grant.ts and _revoke.ts.
use tru_budget.Base.{String, Bool, not, ◌&&◌, ◌||◌, ◌===◌, List, [], ◌∷◌, includes}
use tru_budget.Result.{
  Failure, Result, ok, map_err, ◌>>=◌, ◌>>◌, require, wrapped, precondition_error, not_authorized,
}
use tru_budget.Joi.{Joi}
use tru_budget.Intents.{Intent, global_intents}
use tru_budget.Event.{Identity, BusinessEvent, global_permission_granted, global_permission_revoked}
use tru_budget.Event.Checks.{header_ok}
use tru_budget.Event.Create.{checked}
use tru_budget.Identity.{ServiceUser}
use tru_budget.Notification.{Ctx, header_at}
use tru_budget.GlobalPermissions.{GlobalPermissions, permits}

-- The repository; of a user the organization is read, and of the error for an unknown user its message.
pub record Repository : Type 0 where
  pub get_global_permissions : Result GlobalPermissions
  pub is_group : String → Result Bool
  pub organization_of : String → Result String
  pub message_of : Failure → List String

module _ (joi : Joi) (ctx : Ctx) where
  -- `createEvent` of global_permission_granted.ts
  unfoldable pub create_granted : String → Intent → Identity → Result BusinessEvent
  create_granted publisher permission grantee =
      checked
        (header_ok joi (header_at ctx 0 publisher)
          && includes global_intents permission
          && joi.string grantee)
        (global_permission_granted (header_at ctx 0 publisher) permission grantee)

  -- `createEvent` of global_permission_revoked.ts
  unfoldable pub create_revoked : String → Intent → Identity → Result BusinessEvent
  create_revoked publisher permission revokee =
      checked
        (header_ok joi (header_at ctx 0 publisher)
          && includes global_intents permission
          && joi.string revokee)
        (global_permission_revoked (header_at ctx 0 publisher) permission revokee)

  module _ (issuer : ServiceUser) (issuer_organization : String) (repository : Repository) where
    -- what both commands check after the event was created
    unfoldable pub check_change : Intent → Identity → BusinessEvent → Result (List BusinessEvent)
    check_change needed identity event = do
      global_permissions ←
          map_err repository.get_global_permissions
            (λ e. wrapped e ("get global permissions failed" ∷ []))
      is_group ←
          map_err (repository.is_group identity) (λ e. wrapped e ("isGroup check failed" ∷ []))
      require (not is_group)
          (precondition_error ("Cannot assign global permissions to groups" ∷ []))
      organization ←
          map_err (repository.organization_of identity)
            (λ e. precondition_error (repository.message_of e))
      require (organization === issuer_organization) (not_authorized issuer.id needed)
      require ((issuer.id === "root") || permits global_permissions issuer (needed ∷ []))
          (not_authorized issuer.id needed)
      ok (event ∷ [])

    -- `grantGlobalPermission`
    unfoldable pub grant_global_permission : Identity → Intent → Result (List BusinessEvent)
    grant_global_permission grantee intent = do
      event ←
          map_err (create_granted issuer.id intent grantee)
            (λ e. wrapped e ("failed to create global permission granted event" ∷ []))
      check_change "global.grantPermission" grantee event

    -- `revokeGlobalPermission`
    unfoldable pub revoke_global_permission : Identity → Intent → Result (List BusinessEvent)
    revoke_global_permission revokee intent = do
      event ←
          map_err (create_revoked issuer.id intent revokee)
            (λ e. wrapped e ("failed to create global permission revoked event" ∷ []))
      check_change "global.revokePermission" revokee event
