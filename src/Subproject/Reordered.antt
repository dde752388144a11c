-- ===== src/Subproject/Reordered.antt =====
-- api/src/service/domain/workflow/workflowitems_reordered.ts
use tru_budget.Base.{String, ◌&&◌, List, all}
use tru_budget.Result.{Result, ok}
use tru_budget.Joi.{Joi, id_text}
use tru_budget.Event.{Header, SubprojectPlace, BusinessEvent, workflowitems_reordered}
use tru_budget.Event.Checks.{header_ok, subproject_place_ok}
use tru_budget.Event.Create.{checked}
use tru_budget.Subproject.{Subproject}

unfoldable pub create_event : Joi → Header → SubprojectPlace → List String → Result BusinessEvent
create_event joi header place ordering =
    checked (header_ok joi header && subproject_place_ok joi place && all (id_text joi) ordering)
      (workflowitems_reordered header place ordering)

unfoldable pub mutate : Header → SubprojectPlace → List String → Subproject → Result Subproject
mutate header place ordering s = ok (record s { workflowitem_ordering = ordering })
