-- ===== src/Subproject/PermissionRevoked.antt =====
-- api/src/service/domain/workflow/subproject_permission_revoked.ts
use tru_budget.Base.{◌&&◌, includes}
use tru_budget.Result.{Result, ok}
use tru_budget.Joi.{Joi}
use tru_budget.Intents.{Intent, subproject_intents}
use tru_budget.Event.{
  Identity, Header, SubprojectPlace, BusinessEvent, subproject_permission_revoked,
}
use tru_budget.Event.Checks.{header_ok, subproject_place_ok}
use tru_budget.Event.Create.{checked}
use tru_budget.Identity.Grants.{revoke}
use tru_budget.Subproject.{Subproject}

unfoldable pub create_event :
    Joi → Header → SubprojectPlace → Intent → Identity → Result BusinessEvent
create_event joi header place permission revokee =
    checked
      (header_ok joi header
        && subproject_place_ok joi place
        && includes subproject_intents permission
        && joi.string revokee)
      (subproject_permission_revoked header place permission revokee)

unfoldable pub mutate :
    Header → SubprojectPlace → Intent → Identity → Subproject → Result Subproject
mutate header place permission revokee s =
    ok (record s { permissions = revoke permission revokee s.permissions })
