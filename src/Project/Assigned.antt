-- ===== src/Project/Assigned.antt =====
-- api/src/service/domain/workflow/project_assigned.ts
use tru_budget.Base.{String, ◌&&◌}
use tru_budget.Result.{Result, ok}
use tru_budget.Joi.{Joi, id_text}
use tru_budget.Event.{Identity, Header, BusinessEvent, project_assigned}
use tru_budget.Event.Checks.{header_ok}
use tru_budget.Event.Create.{checked}
use tru_budget.Project.{Project}

unfoldable pub create_event : Joi → Header → String → Identity → Result BusinessEvent
create_event joi header project_id assignee =
    checked (header_ok joi header && id_text joi project_id && joi.string assignee)
      (project_assigned header project_id assignee)

unfoldable pub mutate : Header → String → Identity → Project → Result Project
mutate header project_id assignee p = ok (record p { assignee = assignee })
