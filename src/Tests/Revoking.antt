-- ===== src/Tests/Revoking.antt =====
-- The revocation of a permission at sample data.
use tru_budget.Base.{◌≡◌, refl, Bool, [], ◌∷◌}
use tru_budget.Result.{ok}
use tru_budget.Event.{BusinessEvent, Permissions, workflowitem_permission_revoked}
use tru_budget.Identity.{eligibles}
use tru_budget.Workflowitem.{Workflowitem}
use tru_budget.Workflowitem.PermissionRevoked
use tru_budget.Notification.{header_at}
use tru_budget.Commands.LastUser.Granters.{Kept, revoke_workflowitem_permission-Kept}
use tru_budget.Commands.RevokeWorkflowitemPermission.{Repository, revoke_workflowitem_permission}
use tru_budget.Tests.{same_texts, joi, ctx, mia, item, place_of}

abbrev granted_item : Workflowitem
granted_item = record (item "w1") {
  permissions =
      ("workflowitem.intent.grantPermission", "mia" ∷ "tom" ∷ [])
      ∷ ("workflowitem.intent.revokePermission", "reviewers" ∷ [])
      ∷ [];
}

abbrev repository : Repository
repository = record { get_workflowitem = λ p s w. ok granted_item }

-- `isEqual`, for what the event can change here
abbrev same_permissions : Permissions → Permissions → Bool
same_permissions p q =
    same_texts (eligibles p "workflowitem.intent.grantPermission")
      (eligibles q "workflowitem.intent.grantPermission")

abbrev revocation : BusinessEvent
revocation =
    workflowitem_permission_revoked (header_at ctx 0 "mia") (place_of "w1")
      "workflowitem.intent.grantPermission" "tom"

revocation_runs :
    revoke_workflowitem_permission joi same_permissions ctx mia
      (place_of "w1")
      repository
      "tom"
      "workflowitem.intent.grantPermission"
    ≡ ok (revocation ∷ [])
unfolding revoke_workflowitem_permission PermissionRevoked.create_event
    tru_budget.Commands.require_permission tru_budget.Identity.permits tru_budget.Identity.collect
    tru_budget.Identity.can_assume_identity
    tru_budget.Workflowitem.EventSourcing.new_workflowitem_from_event
    tru_budget.Workflowitem.EventSourcing.get_event_module PermissionRevoked.mutate
    tru_budget.Workflowitem.validate tru_budget.Workflowitem.schema tru_budget.Money.money_amount
    tru_budget.Identity.Grants.revoke tru_budget.Commands.LastUser.keep_last_user
revocation_runs = refl

revoke_workflowitem_permission-Kept_example : Kept joi granted_item (revocation ∷ [])
revoke_workflowitem_permission-Kept_example =
    revoke_workflowitem_permission-Kept joi same_permissions ctx mia (place_of "w1") repository
      "tom" "workflowitem.intent.grantPermission" granted_item refl (λ e. cc) revocation_runs
