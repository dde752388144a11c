-- ===== src/Commands.antt =====
-- The commands of api/src/service/domain/workflow: each checks a user's intent against the stored
-- state and returns the events to append to the chain. What a command is given as its `repository`
-- is a record of functions here, too.
pub mod Checks
pub mod GrantSubprojectPermission
pub mod GrantProjectPermission
pub mod RevokeWorkflowitemPermission
pub mod RevokeSubprojectPermission
pub mod RevokeProjectPermission
pub mod LastUser
pub mod GrantWorkflowitemPermission
pub mod AssignSubproject
pub mod AssignProject
pub mod UpdateSubproject
pub mod UpdateProject
pub mod UpdateSubprojectBudget
pub mod DeleteSubprojectBudget
pub mod UpdateProjectBudget
pub mod DeleteProjectBudget
pub mod CloseWorkflowitem
pub mod ReorderWorkflowitems
pub mod AssignWorkflowitem
pub mod CloseProject
pub mod CloseSubproject
pub mod Duplicates
pub mod CreateProject
pub mod CreateSubproject
use tru_budget.Base.{String, Bool, true, ◌||◌, List, [], ◌∷◌, ◌===◌, if◌then◌else◌}
use tru_budget.Result.{Result, ok, err, not_authorized}
use tru_budget.Intents.{Intent}
use tru_budget.Event.{Identity, Permissions}
use tru_budget.Identity.{ServiceUser, permits}

-- `if (user.id !== "root" && !permits(entity, user, [intent])) return new NotAuthorized(…)`
unfoldable pub require_permission : ServiceUser → Intent → Permissions → Result (Unit {0})
require_permission user intent permissions =
    if (user.id === "root") || permits permissions user (intent ∷ [])
    then ok tt
    else err (not_authorized user.id intent)

-- `entity.assignee ? await getUsersForIdentity(entity.assignee) : []`
abbrev pub users_of_assignee : (Identity → Result (List String)) → Identity → Result (List String)
users_of_assignee users String.[] = ok []
users_of_assignee users (String.◌∷◌ c s) = users (String.◌∷◌ c s)
