-- ===== src/Project/Closed.antt =====
-- api/src/service/domain/workflow/project_closed.ts
use tru_budget.Base.{String, ◌&&◌}
use tru_budget.Result.{Result, ok}
use tru_budget.Joi.{Joi, id_text}
use tru_budget.Event.{closed, Header, BusinessEvent, project_closed}
use tru_budget.Event.Checks.{header_ok}
use tru_budget.Event.Create.{checked}
use tru_budget.Project.{Project}

unfoldable pub create_event : Joi → Header → String → Result BusinessEvent
create_event joi header project_id =
    checked (header_ok joi header && id_text joi project_id) (project_closed header project_id)

unfoldable pub mutate : Header → String → Project → Result Project
mutate header project_id p = ok (record p { status = closed })
