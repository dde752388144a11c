-- ===== src/Commands/GrantWorkflowitemPermission.antt =====
-- api/src/service/domain/workflow/workflowitem_permission_grant.ts; lodash's `isEqual` and the switch of
-- the configuration are parameters.
use tru_budget.Base.{
  String, Bool, true, false, Option, none, some, List, [], ◌∷◌, ◌++◌, if◌then◌else◌,
}
use tru_budget.Result.{Result, ok, err, ◌>>=◌, ◌>>◌, map_err, wrapped, not_found, invalid_command}
use tru_budget.Joi.{Joi}
use tru_budget.Intents.{Intent}
use tru_budget.Event.{Identity, Permissions, BusinessEvent, WorkflowitemPlace, DocumentReference}
use tru_budget.Identity.{ServiceUser}
use tru_budget.Notification.{Ctx, header_at}
use tru_budget.Workflowitem.{Workflowitem}
use tru_budget.Workflowitem.PermissionGranted
use tru_budget.Workflowitem.EventSourcing.{new_workflowitem_from_event}
use tru_budget.Commands.{require_permission}

-- Of a user the organization is read, and of a group the members.
pub record Repository : Type 0 where
  pub get_workflowitem : String → String → String → Result Workflowitem
  pub user_exists : Identity → Result Bool
  pub organization_of : Identity → Result String
  pub share_document : String → String → Result (Option BusinessEvent)
  pub group_exists : Identity → Result Bool
  pub members_of : Identity → Result (List Identity)

-- The conditions take the result as it is, and an error is truthy.
abbrev pub truthy : Result Bool → Bool
truthy (err _) = true
truthy (ok b) = b

-- `if (event) documentEvents.push(event)`
abbrev pub shared : Option BusinessEvent → List BusinessEvent
shared none = []
shared (some event) = event ∷ []

module _ (repository : Repository) where
  abbrev pub organizations_of : List Identity → Result (List String)
  organizations_of [] = ok []
  organizations_of (member ∷ members) = do
    organization ←
        map_err (repository.organization_of member)
          (λ e. wrapped e ("failed to get group member" ∷ []))
    rest ← organizations_of members
    ok (organization ∷ rest)

  -- `getOrganizations`
  unfoldable pub get_organizations : Identity → Result (List String)
  get_organizations grantee =
      if truthy (repository.user_exists grantee)
      then (do
        organization ←
            map_err (repository.organization_of grantee)
              (λ e. wrapped e ("failed to get user" ∷ []))
        ok (organization ∷ []))
      else if truthy (repository.group_exists grantee)
      then (do
        members ←
            map_err (repository.members_of grantee) (λ e. wrapped e ("failed to get group" ∷ []))
        organizations_of members)
      else ok []

  -- the two loops: each document is shared with each organization
  abbrev pub share_with : String → List DocumentReference → Result (List BusinessEvent)
  share_with organization [] = ok []
  share_with organization (doc ∷ docs) = do
    event ← map_err (repository.share_document doc.id organization) (λ e.
        wrapped e ("failed to share Document " ∷ doc.id ∷ " to organization " ∷ organization ∷ []))
    rest ← share_with organization docs
    ok (shared event ++ rest)

  abbrev pub share_all : List String → List DocumentReference → Result (List BusinessEvent)
  share_all [] docs = ok []
  share_all (organization ∷ organizations) docs = do
    events ← share_with organization docs
    rest ← share_all organizations docs
    ok (events ++ rest)

  -- with the document feature only
  unfoldable pub document_events :
      Bool → Identity → List DocumentReference → Result (List BusinessEvent)
  document_events false grantee docs = ok []
  document_events true grantee docs = do
    organizations ←
        map_err (get_organizations grantee)
          (λ e. wrapped e ("failed to get organization for sharing documents" ∷ []))
    share_all organizations docs

module _ (joi : Joi) (is_equal : Permissions → Permissions → Bool) (document_feature_enabled : Bool)
    (ctx : Ctx) (issuer : ServiceUser) (place : WorkflowitemPlace) (repository : Repository) where
  -- `grantWorkflowitemPermission`
  unfoldable pub grant_workflowitem_permission : Identity → Intent → Result (List BusinessEvent)
  grant_workflowitem_permission grantee intent = do
    w ←
        map_err
          (repository.get_workflowitem place.project_id place.subproject_id place.workflowitem_id)
          (λ _. not_found "workflowitem" place.workflowitem_id)
    event ←
        map_err
          (PermissionGranted.create_event joi (header_at ctx 0 issuer.id) place intent grantee)
          (λ e. wrapped e ("failed to create permission granted event" ∷ []))
    require_permission issuer "workflowitem.intent.grantPermission" w.permissions
    updated ← map_err (new_workflowitem_from_event joi w event) invalid_command
    documents ← document_events repository document_feature_enabled grantee w.documents
    if is_equal w.permissions updated.permissions then ok [] else ok (event ∷ documents)
