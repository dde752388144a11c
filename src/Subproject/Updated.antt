-- ===== src/Subproject/Updated.antt =====
-- api/src/service/domain/workflow/subproject_updated.ts
use tru_budget.Base.{Bool, ◌&&◌, [], ◌∷◌}
use tru_budget.Result.{Result, ok, err, verror}
use tru_budget.Joi.{Joi, if_given, or_empty}
use tru_budget.Event.{
  opened, closed, Header, SubprojectPlace, SubprojectUpdate, BusinessEvent, subproject_updated,
}
use tru_budget.Event.Checks.{header_ok, subproject_place_ok}
use tru_budget.Event.Create.{checked}
use tru_budget.Workflowitem.Updated.{take_over, update_additional_data}
use tru_budget.Subproject.{Subproject}

pub modification_ok : Joi → SubprojectUpdate → Bool
modification_ok joi m =
    if_given joi.string m.display_name && if_given (or_empty joi.string) m.description

unfoldable pub create_event :
    Joi → Header → SubprojectPlace → SubprojectUpdate → Result BusinessEvent
unfolding modification_ok
create_event joi header place update =
    checked (header_ok joi header && subproject_place_ok joi place && modification_ok joi update)
      (subproject_updated header place update)

abbrev pub apply_update : SubprojectUpdate → Subproject → Subproject
apply_update m s = record s {
  display_name = take_over m.display_name s.display_name;
  description = take_over m.description s.description;
  additional_data = update_additional_data m.additional_data s.additional_data;
}

unfoldable pub mutate : Header → SubprojectPlace → SubprojectUpdate → Subproject → Result Subproject
mutate header place update s = elim s.status [
  | closed ↦ err (verror ("a subproject may only be updated if its status is \"open\"" ∷ []))
  | opened ↦ ok (apply_update update s)
]
