-- ===== src/Subproject/Assigned.antt =====
-- api/src/service/domain/workflow/subproject_assigned.ts
use tru_budget.Base.{◌&&◌}
use tru_budget.Result.{Result, ok}
use tru_budget.Joi.{Joi}
use tru_budget.Event.{Identity, Header, SubprojectPlace, BusinessEvent, subproject_assigned}
use tru_budget.Event.Checks.{header_ok, subproject_place_ok}
use tru_budget.Event.Create.{checked}
use tru_budget.Subproject.{Subproject}

unfoldable pub create_event : Joi → Header → SubprojectPlace → Identity → Result BusinessEvent
create_event joi header place assignee =
    checked (header_ok joi header && subproject_place_ok joi place && joi.string assignee)
      (subproject_assigned header place assignee)

unfoldable pub mutate : Header → SubprojectPlace → Identity → Subproject → Result Subproject
mutate header place assignee s = ok (record s { assignee = assignee })
