-- ===== src/Tests/Disabling.antt =====
-- The disabling of a user, the making of a token and the search for the user's assignments, at sample
-- data.
use tru_budget.Base.{◌≡◌, refl, Bool, [], ◌∷◌, ◌&&◌, includes}
use tru_budget.Result.{ok}
use tru_budget.Event.{Permissions, BusinessEvent, user_disabled}
use tru_budget.Identity.{eligibles}
use tru_budget.Project.{Project}
use tru_budget.Notification.{header_at}
use tru_budget.GlobalPermissions.{GlobalPermissions, permits}
use tru_budget.Intents.{Intent, global_intents}
use tru_budget.Organization.AuthToken
use tru_budget.Organization.AuthToken.{
  AuthToken, holder, from_user_record, from_user_record-permits,
}
use tru_budget.Organization.User.{UserRecord}
use tru_budget.Organization.User.Assignments
use tru_budget.Organization.User.Assignments.{
  UserAssignments, has_assignments, get_user_assignments,
}
use tru_budget.Organization.User.Availability.{Repository, disable_user}
use tru_budget.Organization.User.Disabled.{Disables, disable_user-Disables}
use tru_budget.Tests.{same_texts, joi, ctx, mia, item, closed_item, subproject, project}

abbrev tom : UserRecord
tom = record {
  id = "tom";
  created_at = "2023-04-01";
  display_name = "Tom";
  organization = "org";
  password_hash = "h";
  address = "a";
  encrypted_priv_key = "k";
  permissions = ("user.authenticate", "tom" ∷ []) ∷ ("user.list", "mia" ∷ []) ∷ [];
  log = [];
  additional_data = [];
}

-- One workflowitem is tom's, and closed.
abbrev search : Assignments.Repository
search = record {
  get_all_projects = ok (project ∷ []);
  get_subprojects = λ p. ok (subproject ∷ []);
  get_workflowitems = λ p s. ok (record (closed_item "w1") { assignee = "tom" } ∷ item "w2" ∷ []);
  organization_of = λ id. ok "org";
}

abbrev repository : Repository
repository = record {
  get_user = λ id. ok tom;
  get_global_permissions =
      ok (record { permissions = ("global.disableUser", "mia" ∷ []) ∷ []; log = [] });
  get_user_assignments = λ id. get_user_assignments id mia search "org";
  message_of = λ e. [];
}

-- `isEqual`, for what the event can change here
abbrev same_login : Permissions → Permissions → Bool
same_login p q = same_texts (eligibles p "user.authenticate") (eligibles q "user.authenticate")

abbrev disabling : BusinessEvent
disabling = user_disabled (header_at ctx 0 "mia") "tom"

disabling_runs : disable_user joi same_login ctx mia "org" repository "tom" ≡ ok (disabling ∷ [])
unfolding disable_user tru_budget.Organization.User.Events.create_disabled
    tru_budget.GlobalPermissions.permits tru_budget.Identity.permits tru_budget.Identity.collect
    tru_budget.Identity.can_assume_identity
    tru_budget.Organization.User.Availability.require_unassigned get_user_assignments
    Assignments.visit_projects Assignments.visit_subprojects has_assignments
    Assignments.visit_workflowitems tru_budget.Organization.User.Availability.emit_change
    tru_budget.Organization.User.EventSourcing.new_user_from_event
    tru_budget.Organization.User.EventSourcing.get_event_module
    tru_budget.Organization.User.Events.mutate_disabled tru_budget.Organization.User.validate
    tru_budget.Organization.User.schema
disabling_runs = refl

disable_user-Disables_example :
    Disables joi same_login ctx mia "org" repository "tom" (disabling ∷ [])
disable_user-Disables_example =
    disable_user-Disables joi same_login ctx mia "org" repository "tom" disabling_runs

abbrev tokens : AuthToken.Repository
tokens = record {
  get_groups_for_user = λ id. ok ("reviewers" ∷ []);
  get_organization_address = λ o. ok "o1";
  get_global_permissions =
      ok (record { permissions = ("global.createGroup", "reviewers" ∷ []) ∷ []; log = [] });
}

abbrev token : AuthToken
token = record {
  user_id = "tom";
  display_name = "Tom";
  address = "a";
  groups = "reviewers" ∷ [];
  organization = "org";
  organization_address = "o1";
  allowed_intents = "global.createGroup" ∷ [];
}

token_made : from_user_record tom tokens ≡ ok token
unfolding from_user_record tru_budget.GlobalPermissions.identities_authorized_for
    tru_budget.Identity.can_assume_identity
token_made = refl

from_user_record-permits_example :
    (g : GlobalPermissions) × (tokens.get_global_permissions ≡ ok g)
    × ((intent : Intent)
        → includes token.allowed_intents intent
          ≡ (permits g (holder token) (intent ∷ []) && includes global_intents intent))
from_user_record-permits_example = from_user_record-permits tom tokens token_made
