-- ===== src/Project/Updated.antt =====
-- api/src/service/domain/workflow/project_updated.ts
use tru_budget.Base.{String, Bool, ◌&&◌, ◌||◌, [], is_some, all, ◌∷◌}
use tru_budget.Result.{Result, ok, err, verror}
use tru_budget.Joi.{Joi, if_given, or_empty, id_text}
use tru_budget.Event.{opened, closed, Header, ProjectModification, BusinessEvent, project_updated}
use tru_budget.Event.Checks.{header_ok}
use tru_budget.Event.Create.{checked}
use tru_budget.Workflowitem.Updated.{take_over, take_over_optional, update_additional_data}
use tru_budget.Project.{Project, tag_ok}

pub modification_ok : Joi → ProjectModification → Bool
modification_ok joi m =
    if_given joi.string m.display_name
    && if_given (or_empty joi.string) m.description
    && if_given (or_empty joi.string) m.thumbnail
    && if_given (all (tag_ok joi)) m.tags
    && (is_some m.display_name
        || is_some m.description
        || is_some m.thumbnail
        || is_some m.additional_data
        || is_some m.tags)

unfoldable pub create_event : Joi → Header → String → ProjectModification → Result BusinessEvent
unfolding modification_ok
create_event joi header project_id update =
    checked (header_ok joi header && id_text joi project_id && modification_ok joi update)
      (project_updated header project_id update)

abbrev pub apply_update : ProjectModification → Project → Project
apply_update m p = record p {
  display_name = take_over m.display_name p.display_name;
  description = take_over m.description p.description;
  thumbnail = take_over_optional m.thumbnail p.thumbnail;
  tags = take_over m.tags p.tags;
  additional_data = update_additional_data m.additional_data p.additional_data;
}

unfoldable pub mutate : Header → String → ProjectModification → Project → Result Project
mutate header project_id update p = elim p.status [
  | closed ↦ err (verror ("a project may only be updated if its status is \"open\"" ∷ []))
  | opened ↦ ok (apply_update update p)
]
