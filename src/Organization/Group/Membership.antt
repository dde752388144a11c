-- ===== src/Organization/Group/Membership.antt =====
-- api/src/service/domain/organization/group_member_added.ts, group_member_removed.ts,
-- group_member_add.ts and group_member_remove.ts.
use tru_budget.Base.{
  String, Bool, ◌&&◌, ◌||◌, ◌===◌, Option, none, some, List, [], ◌∷◌, ◌++◌, all, find,
}
use tru_budget.Result.{
  Result, ok, err, map_err, ◌>>=◌, ◌>>◌, require, wrapped, not_found, not_authorized, unless_errors,
}
use tru_budget.Dict.{values}
use tru_budget.Joi.{Joi}
use tru_budget.Event.{Identity, BusinessEvent, group_member_added, group_member_removed}
use tru_budget.Event.Checks.{header_ok}
use tru_budget.Event.Create.{checked}
use tru_budget.Identity.{ServiceUser}
use tru_budget.Notification.{Ctx, header_at}
use tru_budget.Organization.Group.{Group, permits}
use tru_budget.Organization.Group.EventSourcing.{source_groups}

-- `Joi.array().items(memberSchema.required())`: an item is required
abbrev pub is_nonempty : List Identity → Bool
is_nonempty [] = Bool.false
is_nonempty (m ∷ ms) = Bool.true

abbrev pub known : String → Option Group → Result Group
known id none = err (not_found "group" id)
known id (some g) = ok g

-- `if (issuer.id !== "root") { if (!Group.permits(…)) return new NotAuthorized(…) }`
abbrev pub authorized : Group → ServiceUser → String → Result (Unit {0})
authorized group issuer intent =
    require ((issuer.id === "root") || permits group issuer (intent ∷ []))
      (not_authorized issuer.id intent)

module _ (joi : Joi) (ctx : Ctx) where
  -- `createEvent` of group_member_added.ts
  unfoldable pub create_added : String → String → List Identity → Result BusinessEvent
  create_added publisher group_id new_members =
      checked
        (header_ok joi (header_at ctx 0 publisher)
          && joi.string group_id
          && is_nonempty new_members
          && all joi.string new_members)
        (group_member_added (header_at ctx 0 publisher) group_id new_members)

  -- `createEvent` of group_member_removed.ts
  unfoldable pub create_removed : String → String → List Identity → Result BusinessEvent
  create_removed publisher group_id members =
      checked
        (header_ok joi (header_at ctx 0 publisher)
          && joi.string group_id
          && is_nonempty members
          && all joi.string members)
        (group_member_removed (header_at ctx 0 publisher) group_id members)

  -- `addMembers`, with the events of the repository
  unfoldable pub add_members :
      ServiceUser → String → List Identity → List BusinessEvent → Result BusinessEvent
  add_members issuer group_id new_members events = do
    group ← known group_id (find (λ g. g.id === group_id) (values (source_groups joi events).0))
    event ←
        map_err (create_added issuer.id group_id new_members)
          (λ e. wrapped e ("failed to create group added event" ∷ []))
    authorized group issuer "group.addUser"
    unless_errors (source_groups joi (events ++ event ∷ [])).1 event

  -- `removeMembers`
  unfoldable pub remove_members :
      ServiceUser → String → List Identity → List BusinessEvent → Result BusinessEvent
  remove_members issuer group_id members events = do
    group ← known group_id (find (λ g. g.id === group_id) (values (source_groups joi events).0))
    event ←
        map_err (create_removed issuer.id group_id members)
          (λ e. wrapped e ("failed to create group member removed event" ∷ []))
    authorized group issuer "group.removeUser"
    unless_errors (source_groups joi (events ++ event ∷ [])).1 event
