-- ===== src/Identity.antt =====
-- The acting user and permissions: api/src/service/domain/organization/auth_token.ts and
-- service_user.ts, and the `permits` functions of the entities.
pub mod Grants
pub mod Laws
pub mod Revocations
use tru_budget.Base.{
  String, Bool, true, false, ◌&&◌, ◌||◌, Option, none, some, List, [], ◌∷◌, ◌++◌, any, includes,
  ◌===◌, if◌then◌else◌,
}
use tru_budget.Dict.{lookup}
use tru_budget.Intents.{Intent}
use tru_budget.Event.{Identity, Permissions}

pub record ServiceUser : Type 0 where
  pub id : String
  pub groups : List String

-- `canAssumeIdentity`
unfoldable pub can_assume_identity : ServiceUser → Identity → Bool
can_assume_identity user identity = (identity === user.id) || includes user.groups identity

-- `ids || []`
abbrev pub or_nil : Option (List Identity) → List Identity
or_nil none = []
or_nil (some ids) = ids

-- `permissions[intent] || []`
abbrev pub eligibles : Permissions → Intent → List Identity
eligibles permissions intent = or_nil (lookup intent permissions)

-- the loop of `reduce`
unfoldable pub collect : Permissions → List Identity → List Intent → List Identity
collect permissions acc [] = acc
collect permissions acc (intent ∷ intents) =
    collect permissions (acc ++ eligibles permissions intent) intents

unfoldable pub permits : Permissions → ServiceUser → List Intent → Bool
permits permissions acting_user intents =
    any (can_assume_identity acting_user) (collect permissions [] intents)
