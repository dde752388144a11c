-- ===== src/Tests/Creating.antt =====
-- The creation of a project at sample data.
use tru_budget.Base.{String, false, none, some, [], ◌∷◌}
use tru_budget.Result.{ok}
use tru_budget.Event.{ProjectedBudget, BusinessEvent, project_created}
use tru_budget.Notification.{header_at}
use tru_budget.Commands.CreateProject.{RequestData, Repository, initial_data}
use tru_budget.Commands.CreateProject.Creates.{Creates}
use tru_budget.Tests.{ctx, mia}

abbrev budget : String → String → String → ProjectedBudget
budget organization value currency = record {
  organization = organization;
  value = value;
  currency_code = currency;
}

abbrev request : RequestData
request = record {
  id = some "p2";
  status = none;
  display_name = "Schools";
  description = some "";
  assignee = none;
  thumbnail = none;
  projected_budgets = some (budget "a" "100" "EUR" ∷ budget "a" "200" "USD" ∷ []);
  additional_data = none;
  tags = none;
}

abbrev repository : Repository
repository = record {
  get_global_permissions =
      ok (record { permissions = ("global.createProject", "mia" ∷ []) ∷ []; log = [] });
  project_exists = λ id. false;
}

abbrev creation_event : BusinessEvent
creation_event = project_created (header_at ctx 0 "mia") (initial_data "x" mia request)
