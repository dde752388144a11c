-- ===== src/Project/PermissionGranted.antt =====
-- api/src/service/domain/workflow/project_permission_granted.ts
use tru_budget.Base.{String, ◌&&◌, includes}
use tru_budget.Result.{Result, ok}
use tru_budget.Joi.{Joi, id_text}
use tru_budget.Intents.{Intent, project_intents}
use tru_budget.Event.{Identity, Header, BusinessEvent, project_permission_granted}
use tru_budget.Event.Checks.{header_ok}
use tru_budget.Event.Create.{checked}
use tru_budget.Identity.Grants.{grant}
use tru_budget.Project.{Project}

unfoldable pub create_event : Joi → Header → String → Intent → Identity → Result BusinessEvent
create_event joi header project_id permission grantee =
    checked
      (header_ok joi header
        && id_text joi project_id
        && includes project_intents permission
        && joi.string grantee)
      (project_permission_granted header project_id permission grantee)

unfoldable pub mutate : Header → String → Intent → Identity → Project → Result Project
mutate header project_id permission grantee p =
    ok (record p { permissions = grant permission grantee p.permissions })
