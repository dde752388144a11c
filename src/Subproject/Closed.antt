-- ===== src/Subproject/Closed.antt =====
-- api/src/service/domain/workflow/subproject_closed.ts
use tru_budget.Base.{◌&&◌}
use tru_budget.Result.{Result, ok}
use tru_budget.Joi.{Joi}
use tru_budget.Event.{closed, Header, SubprojectPlace, BusinessEvent, subproject_closed}
use tru_budget.Event.Checks.{header_ok, subproject_place_ok}
use tru_budget.Event.Create.{checked}
use tru_budget.Subproject.{Subproject}

unfoldable pub create_event : Joi → Header → SubprojectPlace → Result BusinessEvent
create_event joi header place =
    checked (header_ok joi header && subproject_place_ok joi place) (subproject_closed header place)

unfoldable pub mutate : Header → SubprojectPlace → Subproject → Result Subproject
mutate header place s = ok (record s { status = closed })
