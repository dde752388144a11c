-- ===== src/Subproject/PermissionGranted.antt =====
-- api/src/service/domain/workflow/subproject_permission_granted.ts
use tru_budget.Base.{◌&&◌, includes}
use tru_budget.Result.{Result, ok}
use tru_budget.Joi.{Joi}
use tru_budget.Intents.{Intent, subproject_intents}
use tru_budget.Event.{
  Identity, Header, SubprojectPlace, BusinessEvent, subproject_permission_granted,
}
use tru_budget.Event.Checks.{header_ok, subproject_place_ok}
use tru_budget.Event.Create.{checked}
use tru_budget.Identity.Grants.{grant}
use tru_budget.Subproject.{Subproject}

unfoldable pub create_event :
    Joi → Header → SubprojectPlace → Intent → Identity → Result BusinessEvent
create_event joi header place permission grantee =
    checked
      (header_ok joi header
        && subproject_place_ok joi place
        && includes subproject_intents permission
        && joi.string grantee)
      (subproject_permission_granted header place permission grantee)

unfoldable pub mutate :
    Header → SubprojectPlace → Intent → Identity → Subproject → Result Subproject
mutate header place permission grantee s =
    ok (record s { permissions = grant permission grantee s.permissions })
