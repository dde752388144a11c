-- ===== src/Organization/Group/EventSourcing.antt =====
-- api/src/service/domain/organization/group_eventsourcing.ts: groups out of the stream of events.
use tru_budget.Base.{String, not, Option, none, some, List, [], ◌∷◌, ◌++◌, includes, keep}
use tru_budget.Result.{Failure, Result, ok, err, event_sourcing_error}
use tru_budget.Dict.{Dict, lookup, insert}
use tru_budget.Joi.{Joi}
use tru_budget.Event.{
  Header, GroupInitialData, Identity, BusinessEvent, group_created, group_member_added,
  group_member_removed, group_permissions_granted, group_permissions_revoked,
}
use tru_budget.Identity.Grants.{grant, revoke}
use tru_budget.Organization.Group.{Group, validate}

-- the group that `handleGroupCreated` puts together
abbrev pub initial_group : Header → GroupInitialData → Group
initial_group header initial = record {
  id = initial.id;
  created_at = header.time;
  display_name = initial.display_name;
  description = initial.description;
  members = initial.members;
  permissions = initial.permissions;
  log = [];
  additional_data = initial.additional_data;
}

-- `newMembers`: those that are not in the group
abbrev pub new_members_of : Group → List Identity → List Identity
new_members_of g candidates = keep (λ m. not (includes g.members m)) candidates

abbrev pub with_members : Group → List Identity → Group
with_members g more = record g { members = g.members ++ more }

abbrev pub without_members : Group → List Identity → Group
without_members g gone = record g { members = keep (λ m. not (includes gone m)) g.members }

module _ (joi : Joi) where
  -- The end of each branch, with the ID that the event names: the error, or the trace event is pushed
  -- and the group set.
  abbrev pub settled :
      BusinessEvent → String → Result Group → Dict Group × List Failure → Dict Group × List Failure
  settled event id (err e) (groups, errors) = (groups, errors ++ event_sourcing_error e ∷ [])
  settled event id (ok g) (groups, errors) = (
    insert id
        (record g {
          log =
              g.log
              ++ record { entity_id = id; business_event = event; display_name = g.display_name }
                ∷ [];
        })
        groups,
    errors,
  )

  -- `handleGroupCreated`, by the group that has the ID already
  abbrev pub handle_group_created :
      BusinessEvent → Option Group → Group → Dict Group × List Failure → Dict Group × List Failure
  handle_group_created event (some _) g state = state
  handle_group_created event none g state = settled event g.id (validate joi g) state

  -- nothing to do without a new member
  abbrev pub add_new :
      BusinessEvent
      → String
      → Group
      → List Identity
      → Dict Group × List Failure
      → Dict Group × List Failure
  add_new event id g [] state = state
  add_new event id g (m ∷ ms) state =
      settled event id (validate joi (with_members g (m ∷ ms))) state

  -- `applyMembersAdded`
  abbrev pub apply_members_added :
      BusinessEvent
      → String
      → List Identity
      → Option Group
      → Dict Group × List Failure
      → Dict Group × List Failure
  apply_members_added event id candidates none state = state
  apply_members_added event id candidates (some g) state =
      add_new event id g (new_members_of g candidates) state

  -- `applyMemberRemoved`, `applyPermissionGranted` and `applyPermissionRevoked`, by what they do to the
  -- group
  abbrev pub apply_change :
      BusinessEvent
      → String
      → (Group → Group)
      → Option Group
      → Dict Group × List Failure
      → Dict Group × List Failure
  apply_change event id change none state = state
  apply_change event id change (some g) state = settled event id (validate joi (change g)) state

  -- `apply`
  unfoldable pub apply : BusinessEvent → Dict Group × List Failure → Dict Group × List Failure
  apply (group_created header initial) state =
      handle_group_created (group_created header initial) (lookup initial.id state.0)
        (initial_group header initial) state
  apply (group_member_added header id candidates) state =
      apply_members_added (group_member_added header id candidates) id candidates
        (lookup id state.0) state
  apply (group_member_removed header id gone) state =
      apply_change (group_member_removed header id gone) id (λ g. without_members g gone)
        (lookup id state.0) state
  apply (group_permissions_granted header id permission grantee) state =
      apply_change (group_permissions_granted header id permission grantee) id
        (λ g. record g { permissions = grant permission grantee g.permissions }) (lookup id state.0)
        state
  apply (group_permissions_revoked header id permission revokee) state =
      apply_change (group_permissions_revoked header id permission revokee) id
        (λ g. record g { permissions = revoke permission revokee g.permissions })
        (lookup id state.0) state
  apply event state = state

  unfoldable pub source_from :
      List BusinessEvent → Dict Group × List Failure → Dict Group × List Failure
  source_from [] state = state
  source_from (event ∷ events) state = source_from events (apply event state)

  -- `sourceGroups`, with the map whose values are returned
  unfoldable pub source_groups : List BusinessEvent → Dict Group × List Failure
  source_groups events = source_from events ([], [])
