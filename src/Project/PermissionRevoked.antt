-- ===== src/Project/PermissionRevoked.antt =====
-- api/src/service/domain/workflow/project_permission_revoked.ts
use tru_budget.Base.{String, ◌&&◌, includes}
use tru_budget.Result.{Result, ok}
use tru_budget.Joi.{Joi, id_text}
use tru_budget.Intents.{Intent, project_intents}
use tru_budget.Event.{Identity, Header, BusinessEvent, project_permission_revoked}
use tru_budget.Event.Checks.{header_ok}
use tru_budget.Event.Create.{checked}
use tru_budget.Identity.Grants.{revoke}
use tru_budget.Project.{Project}

unfoldable pub create_event : Joi → Header → String → Intent → Identity → Result BusinessEvent
create_event joi header project_id permission revokee =
    checked
      (header_ok joi header
        && id_text joi project_id
        && includes project_intents permission
        && joi.string revokee)
      (project_permission_revoked header project_id permission revokee)

unfoldable pub mutate : Header → String → Intent → Identity → Project → Result Project
mutate header project_id permission revokee p =
    ok (record p { permissions = revoke permission revokee p.permissions })
