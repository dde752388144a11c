-- ===== src/Tests/Handing.antt =====
-- Handing a restricted workflowitem over at sample data.
use tru_budget.Base.{
  ◌≡◌, refl, inl, inr, String, Bool-cases, not, ◌&&◌, ◌||◌, List, [], ◌∷◌, map, includes, ◌===◌,
}
use tru_budget.Result.{Result, ok, err}
use tru_budget.Intents.{workflowitem_intents}
use tru_budget.Event.{Permissions, BusinessEvent}
use tru_budget.Identity.{eligibles, permits, collect, can_assume_identity}
use tru_budget.Identity.Revocations.{HasDistinct}
use tru_budget.Workflowitem.{Workflowitem}
use tru_budget.Workflowitem.PermissionGranted
use tru_budget.Workflowitem.PermissionRevoked
use tru_budget.WorkflowitemTypes.Restricted.{
  permission_of, split_from, grants, revocations, revoked_intents, check_handover,
  order_revocations, create_permission_events,
}
use tru_budget.WorkflowitemTypes.Restricted.Handover.{
  apply_permissions, create_permission_events-includes,
}
use tru_budget.Tests.{joi, ctx, mia, item, place_of}

abbrev granted : Permissions
granted = ("workflowitem.intent.grantPermission", "mia" ∷ []) ∷ []

granted-HasDistinct : HasDistinct granted
granted-HasDistinct intent = elim (Bool-cases ("workflowitem.intent.grantPermission" === intent)) [
  | inl e ↦ rw e (refl, tt)
  | inr e ↦ rw e tt
]

abbrev handed : Workflowitem
handed = record (item "w1") { permissions = granted }

events_of : Result (List BusinessEvent) → List BusinessEvent
events_of (ok events) = events
events_of (err _) = []

abbrev handover : Result (List BusinessEvent)
handover = create_permission_events joi ctx mia (place_of "w1") "tom" handed

succeeds : handover ≡ ok (events_of handover)
unfolding events_of create_permission_events grants revocations check_handover permits collect
    can_assume_identity PermissionGranted.create_event PermissionRevoked.create_event
succeeds = refl

create_permission_events-includes_example :
    includes (eligibles (apply_permissions (events_of handover) granted) "workflowitem.close") "tom"
    ≡ ((includes (eligibles granted "workflowitem.close") "tom"
          || (includes workflowitem_intents "workflowitem.close" && ("tom" === "tom")))
        && not (
            not ("tom" === "mia")
            && includes revoked_intents "workflowitem.close"
            && ("mia" === "tom")))
create_permission_events-includes_example =
    create_permission_events-includes joi ctx mia (place_of "w1") "tom" handed "tom"
      "workflowitem.close" succeeds granted-HasDistinct

permissions_of : Result (List BusinessEvent) → List String
unfolding order_revocations split_from
permissions_of (ok events) = map permission_of (order_revocations events)
permissions_of (err _) = []

-- The order of the revocations: the one of the intent to revoke permissions is not the last.
revocation_order :
    permissions_of (revocations joi ctx mia (place_of "w1") 8 revoked_intents)
    ≡ "workflowitem.intent.grantPermission" ∷ "workflowitem.assign" ∷ "workflowitem.close"
      ∷ "workflowitem.intent.listPermissions" ∷ "workflowitem.intent.revokePermission"
      ∷ "workflowitem.viewHistory" ∷ "workflowitem.update" ∷ []
unfolding permissions_of revocations PermissionRevoked.create_event order_revocations split_from
revocation_order = refl
