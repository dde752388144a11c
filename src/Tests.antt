-- ===== src/Tests.antt =====
-- Sample data for the examples of the children: texts are valid unless they are empty, and the
-- limits of lengths count characters.
mod Caching
mod Sourcing
mod Sorting
mod Granting
mod Closing
mod Commanding
mod Disabling
mod Creating
mod Entities
mod Billing
mod Telling
mod Grouping
mod Handing
mod Revoking
mod Patterns
use tru_budget.Base.{
  ℕ, String, Bool, not, Option, some, none, List, [], ◌∷◌, length, codes, ltb, ◌===◌, ◌&&◌, true,
  false,
}
use tru_budget.Joi.{Joi}
use tru_budget.Event.{
  Status, opened, closed, allocated, general, Header, WorkflowitemPlace, SubprojectPlace,
  Permissions, WorkflowitemInitialData, WorkflowitemModification, BusinessEvent,
  workflowitem_created, workflowitem_updated, workflowitem_closed, workflowitem_permission_granted,
  project_closed,
}
use tru_budget.Identity.{ServiceUser}
use tru_budget.Notification.{Ctx}
use tru_budget.Workflowitem.{Workflowitem}
use tru_budget.Workflowitem.Created.{initial_workflowitem}
use tru_budget.Subproject.{Subproject}
use tru_budget.Project.{Project}

abbrev pub joi : Joi
joi = record {
  string = λ s. not (s === "");
  max = λ n s. not (ltb n (length (codes s)));
  iso_date = λ s. not (s === "");
}

abbrev pub ctx : Ctx
ctx = record { source = "api"; now = λ n. "2023-05-01"; uuid = λ n. "u" }

abbrev pub mia : ServiceUser
mia = record { id = "mia"; groups = "reviewers" ∷ [] }

abbrev pub header : Header
header = record { source = "api"; time = "2023-04-01"; publisher = "mia" }

abbrev pub home : SubprojectPlace
home = record { project_id = "p"; subproject_id = "s" }

abbrev pub place_of : String → WorkflowitemPlace
place_of id = record { project_id = "p"; subproject_id = "s"; workflowitem_id = id }

abbrev pub permissions : Permissions
permissions =
    ("workflowitem.list", "mia" ∷ "reviewers" ∷ []) ∷ ("workflowitem.update", "tom" ∷ []) ∷ []

abbrev pub initial_data : String → WorkflowitemInitialData
initial_data id = record {
  id = id;
  status = opened;
  display_name = "Bridge";
  description = "";
  assignee = "mia";
  amount = some "1,000.50";
  currency = some "EUR";
  amount_type = allocated;
  exchange_rate = some "1.0";
  billing_date = none;
  due_date = none;
  documents = [];
  permissions = permissions;
  additional_data = [];
  workflowitem_type = some general;
}

abbrev pub item : String → Workflowitem
item id = initial_workflowitem header home (initial_data id)

abbrev pub creation : String → BusinessEvent
creation id = workflowitem_created header home (initial_data id)

abbrev pub closing : String → BusinessEvent
closing id = workflowitem_closed header (place_of id) (some "")

abbrev pub renaming : String → String → BusinessEvent
renaming id name = workflowitem_updated header (place_of id) (record {
  display_name = some name;
  description = none;
  amount = none;
  currency = none;
  amount_type = none;
  exchange_rate = none;
  billing_date = none;
  due_date = none;
  documents = none;
  additional_data = none;
})

abbrev pub closed_item : String → Workflowitem
closed_item id = record (item id) { status = closed; billing_date = some "2023-04-01" }

abbrev pub granting : String → BusinessEvent
granting id = workflowitem_permission_granted header (place_of id) "workflowitem.close" "tom"

-- A stream with events of other entities, of unknown workflowitems and of an invalid change.
abbrev pub stream : List BusinessEvent
stream =
    renaming "w1" "" ∷ project_closed header "p" ∷ granting "w1" ∷ closing "w2" ∷ closing "w1" ∷ []

abbrev pub subproject : Subproject
subproject = record {
  id = "s";
  project_id = "p";
  created_at = "2023-01-01";
  status = opened;
  display_name = "Roads";
  description = "";
  assignee = "mia";
  validator = some "mia";
  workflowitem_type = none;
  currency = "EUR";
  projected_budgets = [];
  workflowitem_ordering = "w2" ∷ "w1" ∷ [];
  permissions = permissions;
  log = [];
  additional_data = [];
}

abbrev pub project : Project
project = record {
  id = "p";
  created_at = "2023-01-01";
  status = opened;
  display_name = "Infrastructure";
  description = "";
  assignee = "mia";
  thumbnail = none;
  projected_budgets = [];
  permissions = [];
  log = [];
  additional_data = [];
  tags = [];
}

abbrev pub same_texts : List String → List String → Bool
same_texts [] [] = true
same_texts [] (_ ∷ _) = false
same_texts (_ ∷ _) [] = false
same_texts (x ∷ xs) (y ∷ ys) = (x === y) && same_texts xs ys
