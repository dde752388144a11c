-- ===== src/Identity/Grants.antt =====
-- What the `mutate` functions of the permission events do to the permissions of an entity
-- (workflowitem_, subproject_ and project_permission_granted.ts and _revoked.ts share the text).
use tru_budget.Base.{none, some, List, [], ◌∷◌, ◌++◌, includes, ◌===◌, if◌then◌else◌}
use tru_budget.Dict.{lookup, insert}
use tru_budget.Intents.{Intent}
use tru_budget.Event.{Identity, Permissions}
use tru_budget.Identity.{eligibles}

-- `if (!ids.includes(grantee)) ids.push(grantee)`
abbrev pub include : Identity → List Identity → List Identity
include grantee ids = if includes ids grantee then ids else ids ++ grantee ∷ []

unfoldable pub grant : Intent → Identity → Permissions → Permissions
grant permission grantee permissions =
    insert permission (include grantee (eligibles permissions permission)) permissions

-- `ids.splice(ids.indexOf(revokee), 1)`, if it is there
abbrev pub splice : Identity → List Identity → List Identity
splice revokee [] = []
splice revokee (id ∷ ids) = if id === revokee then ids else id ∷ splice revokee ids

unfoldable pub revoke : Intent → Identity → Permissions → Permissions
revoke permission revokee permissions = elim (lookup permission permissions) [
  | none ↦ permissions
  | some ids ↦ insert permission (splice revokee ids) permissions
]
