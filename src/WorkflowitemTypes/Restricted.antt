-- ===== src/WorkflowitemTypes/Restricted.antt =====
-- api/src/service/domain/workflowitem_types/restricted.ts: assigning a restricted workflowitem hands
-- all permissions over to the assignee.
mod Order
pub mod Handover
use tru_budget.Base.{
  ℕ, ◌+◌, String, Bool, true, false, not, List, [], ◌∷◌, ◌++◌, keep, ◌===◌, if◌then◌else◌,
}
use tru_budget.Result.{Result, ok, err, ◌>>=◌, ◌>>◌, map_err, wrapped, not_authorized}
use tru_budget.Joi.{Joi}
use tru_budget.Intents.{Intent, workflowitem_intents}
use tru_budget.Event.{
  Identity, WorkflowitemPlace, BusinessEvent, workflowitem_created, workflowitem_assigned,
  workflowitem_permission_revoked,
}
use tru_budget.Identity.{ServiceUser, permits}
use tru_budget.Notification.{Ctx, header_at}
use tru_budget.Workflowitem.{Workflowitem}
use tru_budget.Workflowitem.PermissionGranted
use tru_budget.Workflowitem.PermissionRevoked

abbrev pub revoke_intent : Intent
revoke_intent = "workflowitem.intent.revokePermission"

abbrev pub grant_intent : Intent
grant_intent = "workflowitem.intent.grantPermission"

-- `event.permission` of a revocation
abbrev pub permission_of : BusinessEvent → Intent
permission_of (workflowitem_permission_revoked _ _ permission _) = permission
permission_of _ = ""

-- One round of the `reduce` that separates the revocation of the revoke intent. Both branches give
-- the two lists back in the other order.
abbrev pub split_round :
    BusinessEvent
    → List BusinessEvent × List BusinessEvent
    → List BusinessEvent × List BusinessEvent
split_round event (others, revokes) =
    if not (permission_of event === revoke_intent)
    then (revokes ++ event ∷ [], others)
    else (others, revokes ++ event ∷ [])

unfoldable pub split_from :
    List BusinessEvent
    → List BusinessEvent × List BusinessEvent
    → List BusinessEvent × List BusinessEvent
split_from [] lists = lists
split_from (event ∷ events) lists = split_from events (split_round event lists)

-- The revocations in the order in which they are returned.
unfoldable pub order_revocations : List BusinessEvent → List BusinessEvent
unfolding split_from
order_revocations events = let lists = split_from events ([], []) in lists.0 ++ lists.1

-- The intents that the assigner loses: all but the one to list the workflowitem.
abbrev pub revoked_intents : List Intent
revoked_intents = keep (λ intent. not (intent === "workflowitem.list")) workflowitem_intents

module _ (joi : Joi) (ctx : Ctx) (publisher : ServiceUser) (place : WorkflowitemPlace) where
  unfoldable pub grants : Identity → ℕ → List Intent → Result (List BusinessEvent)
  grants assignee n [] = ok []
  grants assignee n (intent ∷ intents) = do
    event ←
        map_err
          (PermissionGranted.create_event joi (header_at ctx n publisher.id) place intent assignee)
          (λ e. wrapped e ("failed to create permission grant event" ∷ []))
    rest ← grants assignee (n + 1) intents
    ok (event ∷ rest)

  unfoldable pub revocations : ℕ → List Intent → Result (List BusinessEvent)
  revocations n [] = ok []
  revocations n (intent ∷ intents) = do
    event ←
        map_err
          (PermissionRevoked.create_event joi (header_at ctx n publisher.id) place intent
            publisher.id)
          (λ e. wrapped e ("failed to create permission revoke event" ∷ []))
    rest ← revocations (n + 1) intents
    ok (event ∷ rest)

  -- the check of the authorization
  unfoldable pub check_handover : Workflowitem → Result (Unit {0})
  check_handover w =
      if publisher.id === "root"
      then ok tt
      else if permits w.permissions publisher (grant_intent ∷ [])
      then ok tt
      else err (
          not_authorized publisher.id (
            if permits w.permissions publisher (revoke_intent ∷ [])
            then grant_intent
            else revoke_intent))

  -- `createPermissionEvents`
  unfoldable pub create_permission_events : Identity → Workflowitem → Result (List BusinessEvent)
  unfolding grants revocations
  create_permission_events assignee w = do
    granted ← grants assignee 0 workflowitem_intents
    revoked ← (if assignee === publisher.id then ok [] else revocations 8 revoked_intents)
    check_handover w
    ok (granted ++ order_revocations revoked)

-- `createEvents`
unfoldable pub create_events :
    Joi → BusinessEvent → Ctx → ServiceUser → Workflowitem → Result (List BusinessEvent)
create_events joi (workflowitem_assigned _ place assignee) ctx publisher w =
    create_permission_events joi ctx publisher place assignee w
create_events joi (workflowitem_created _ place initial) ctx publisher w =
    create_permission_events joi ctx publisher
      (record {
        project_id = place.project_id;
        subproject_id = place.subproject_id;
        workflowitem_id = initial.id;
      })
      initial.assignee w
create_events joi origin_event ctx publisher w = ok []
