-- ===== src/Organization/Group/Create.antt =====
-- api/src/service/domain/organization/group_created.ts and group_create.ts: a new group.
use tru_budget.Base.{
  String, Bool, true, false, ◌&&◌, ◌||◌, ◌===◌, not, Option, none, some, List, [], ◌∷◌, map, all,
  any, if◌then◌else◌,
}
use tru_budget.Result.{
  Result, ok, map_err, ◌>>=◌, ◌>>◌, require, wrapped, already_exists, not_authorized, unless_errors,
}
use tru_budget.Joi.{Joi, or_empty}
use tru_budget.Intents.{group_intents}
use tru_budget.Event.{
  Identity, Permissions, AdditionalData, GroupInitialData, BusinessEvent, group_created,
}
use tru_budget.Event.Checks.{header_ok, permissions_ok}
use tru_budget.Event.Create.{checked}
use tru_budget.Identity.{ServiceUser, can_assume_identity, eligibles}
use tru_budget.Notification.{Ctx, header_at}
use tru_budget.Organization.Group.EventSourcing.{source_groups}

pub record RequestData : Type 0 where
  pub id : String
  pub display_name : String
  pub description : Option String
  pub members : List Identity
  pub additional_data : Option AdditionalData

-- The repository's functions that `createGroup` calls; of the global permissions only the permissions
-- are read.
pub record Repository : Type 0 where
  pub get_global_permissions : Result Permissions
  pub group_exists : String → Result Bool
  pub user_exists : String → Result Bool

-- `newDefaultPermissionsFor`: what is granted by default
abbrev pub new_default_permissions_for : ServiceUser → Permissions
new_default_permissions_for user =
    if user.id === "root" then [] else map (λ intent. (intent, user.id ∷ [])) group_intents

-- `value || fallback`
abbrev pub or_else {ℓ} : {A : Type ℓ} → Option A → A → A
or_else none fallback = fallback
or_else (some a) fallback = a

module _ (joi : Joi) (ctx : Ctx) where
  -- `initialDataSchema`
  abbrev pub initial_data_ok : GroupInitialData → Bool
  initial_data_ok g =
      joi.string g.id
      && joi.string g.display_name
      && or_empty joi.string g.description
      && all joi.string g.members
      && permissions_ok joi g.permissions

  unfoldable pub create_event : String → GroupInitialData → Result BusinessEvent
  create_event publisher initial =
      checked (header_ok joi (header_at ctx 0 publisher) && initial_data_ok initial)
        (group_created (header_at ctx 0 publisher) initial)

  abbrev pub initial_data : ServiceUser → RequestData → GroupInitialData
  initial_data creating_user request = record {
    id = request.id;
    display_name = request.display_name;
    description = or_else request.description "";
    members = request.members;
    permissions = new_default_permissions_for creating_user;
    additional_data = or_else request.additional_data [];
  }

  module _ (creating_user : ServiceUser) (repository : Repository) where
    -- the check for users but root
    abbrev pub authorized : Bool → Result (Unit {0})
    authorized true = ok tt
    authorized false = do
      permissions ←
          map_err repository.get_global_permissions
            (λ e. wrapped e ("get global permissions failed" ∷ []))
      require (any (can_assume_identity creating_user) (eligibles permissions "global.createGroup"))
          (not_authorized creating_user.id "global.createGroup")

    -- `createGroup`
    unfoldable pub create_group : RequestData → Result (List BusinessEvent)
    create_group request = do
      event ←
          map_err (create_event creating_user.id (initial_data creating_user request))
            (λ e. wrapped e ("failed to create group created event" ∷ []))
      group_exists ←
          map_err (repository.group_exists request.id)
            (λ e. wrapped e ("groupExists check failed" ∷ []))
      user_exists ←
          map_err (repository.user_exists request.id)
            (λ e. wrapped e ("user exists check failed" ∷ []))
      require (not (group_exists || user_exists)) (already_exists request.id)
      authorized (creating_user.id === "root")
      unless_errors (source_groups joi (event ∷ [])).1 (event ∷ [])
