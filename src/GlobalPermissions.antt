-- ===== src/GlobalPermissions.antt =====
-- api/src/service/domain/workflow/global_permissions.ts, its trace event and
-- global_permissions_eventsourcing.ts. The permissions are changed in place: a change stays, also where
-- the validation after it fails.
pub mod Change
pub mod Last
use tru_budget.Base.{String, Bool, true, false, ◌&&◌, List, [], ◌∷◌, ◌++◌, all}
use tru_budget.Result.{Failure, Result, ok, err, joi_error, event_sourcing_error}
use tru_budget.Joi.{Joi}
use tru_budget.Intents.{Intent}
use tru_budget.Event.{
  Identity, Permissions, BusinessEvent, global_permission_granted, global_permission_revoked,
}
use tru_budget.Event.Checks.{business_event_ok, permissions_ok}
use tru_budget.Identity.{ServiceUser, eligibles}
use tru_budget.Identity
use tru_budget.Identity.Grants.{grant, revoke}

-- The log's entries, of which each has the same `entityId` and `entityType`, are their events.
pub record GlobalPermissions : Type 0 where
  pub permissions : Permissions
  pub log : List BusinessEvent

unfoldable pub identities_authorized_for : GlobalPermissions → Intent → List Identity
identities_authorized_for global_permissions intent =
    eligibles global_permissions.permissions intent

unfoldable pub permits : GlobalPermissions → ServiceUser → List Intent → Bool
permits global_permissions acting_user intents =
    Identity.permits global_permissions.permissions acting_user intents

module _ (joi : Joi) where
  unfoldable pub schema : GlobalPermissions → Bool
  schema g = permissions_ok joi g.permissions && all (business_event_ok joi) g.log

  -- what follows the change: an error, or the trace event
  abbrev pub noted :
      Bool → BusinessEvent → GlobalPermissions × List Failure → GlobalPermissions × List Failure
  noted true event (g, errors) = (record g { log = g.log ++ event ∷ [] }, errors)
  noted false event (g, errors) = (g, errors ++ event_sourcing_error joi_error ∷ [])

  -- `applyGrantPermission` and `applyRevokePermission`, by what they do to the permissions
  abbrev pub apply_change :
      BusinessEvent
      → (Permissions → Permissions)
      → GlobalPermissions × List Failure
      → GlobalPermissions × List Failure
  apply_change event change (g, errors) =
      let changed = record g { permissions = change g.permissions } in
      noted (schema changed) event (changed, errors)

  -- `apply`
  unfoldable pub apply :
      BusinessEvent → GlobalPermissions × List Failure → GlobalPermissions × List Failure
  apply (global_permission_granted header permission grantee) state =
      apply_change (global_permission_granted header permission grantee) (grant permission grantee)
        state
  apply (global_permission_revoked header permission revokee) state =
      apply_change (global_permission_revoked header permission revokee) (revoke permission revokee)
        state
  apply event state = state

  unfoldable pub source_from :
      List BusinessEvent → GlobalPermissions × List Failure → GlobalPermissions × List Failure
  source_from [] state = state
  source_from (event ∷ events) state = source_from events (apply event state)

  -- `sourceGlobalPermissions`
  unfoldable pub source_global_permissions : List BusinessEvent → GlobalPermissions × List Failure
  source_global_permissions events = source_from events (record { permissions = []; log = [] }, [])
