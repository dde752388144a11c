-- ===== src/Tests/Entities.antt =====
-- The streams of subprojects and projects at sample data.
use tru_budget.Base.{◌≡◌, refl, List, [], ◌∷◌}
use tru_budget.Money.{currency_code}
use tru_budget.Result.{ok}
use tru_budget.Event.{
  closed, BusinessEvent, subproject_closed, project_closed, workflowitems_reordered,
}
use tru_budget.Subproject.{Subproject}
use tru_budget.Subproject.Closed
use tru_budget.Subproject.EventSourcing.{new_subproject_from_event, source_subprojects}
use tru_budget.Subproject.EventSourcing.Keeps as SubprojectKeeps
use tru_budget.Subproject.EventSourcing.Invariant as SubprojectInvariant
use tru_budget.Project.{Project}
use tru_budget.Project.Closed as ProjectClosed
use tru_budget.Project.EventSourcing.{new_project_from_event, source_projects}
use tru_budget.Project.EventSourcing.Keeps as ProjectKeeps
use tru_budget.Project.EventSourcing.Invariant as ProjectInvariant
use tru_budget.Project.EventSourcing.Whole as ProjectWhole
use tru_budget.Tests.{joi, header, home, subproject, project}

abbrev shut_subproject : Subproject
shut_subproject = record subproject { status = closed }

abbrev shut_project : Project
shut_project = record project { status = closed }

abbrev stream : List BusinessEvent
stream =
    workflowitems_reordered header home ("w1" ∷ [])
    ∷ subproject_closed header home
    ∷ project_closed header "p"
    ∷ []

closes_subproject :
    new_subproject_from_event joi subproject (subproject_closed header home) ≡ ok shut_subproject
unfolding new_subproject_from_event tru_budget.Subproject.EventSourcing.get_event_module
    Closed.mutate tru_budget.Subproject.validate tru_budget.Subproject.schema currency_code
closes_subproject = refl

new_subproject_from_event-Keeps_example :
    SubprojectKeeps.Keeps subproject shut_subproject × SubprojectKeeps.IsValid joi shut_subproject
new_subproject_from_event-Keeps_example =
    SubprojectKeeps.new_subproject_from_event-Keeps joi subproject (subproject_closed header home)
      closes_subproject

subproject-IsSourced : SubprojectInvariant.IsSourced joi (("s", subproject) ∷ [])
unfolding tru_budget.Subproject.schema currency_code
subproject-IsSourced = ((refl, refl), tt)

source_subprojects-IsSourced_example :
    SubprojectInvariant.IsSourced joi (source_subprojects joi stream (("s", subproject) ∷ [])).0
source_subprojects-IsSourced_example =
    SubprojectInvariant.source_subprojects-IsSourced joi stream (("s", subproject) ∷ [])
      subproject-IsSourced

closes_project : new_project_from_event joi project (project_closed header "p") ≡ ok shut_project
unfolding new_project_from_event tru_budget.Project.EventSourcing.get_event_module
    ProjectClosed.mutate tru_budget.Project.validate tru_budget.Project.schema
closes_project = refl

new_project_from_event-Keeps_example :
    ProjectKeeps.Keeps project shut_project × ProjectKeeps.IsValid joi shut_project
new_project_from_event-Keeps_example =
    ProjectKeeps.new_project_from_event-Keeps joi project (project_closed header "p") closes_project

project-IsSourced : ProjectInvariant.IsSourced joi (("p", project) ∷ [])
unfolding tru_budget.Project.schema
project-IsSourced = ((refl, refl), tt)

source_projects-IsSourced_example :
    ProjectInvariant.IsSourced joi (source_projects joi stream (("p", project) ∷ [])).0
source_projects-IsSourced_example =
    ProjectInvariant.source_projects-IsSourced joi stream (("p", project) ∷ []) project-IsSourced

project-IsWhole : ProjectWhole.IsWhole joi (("p", project) ∷ [])
unfolding tru_budget.Project.schema
project-IsWhole = ((refl, refl), tt)

source_projects-IsWhole_example :
    ProjectWhole.IsWhole joi (source_projects joi stream (("p", project) ∷ [])).0
source_projects-IsWhole_example =
    ProjectWhole.source_projects-IsWhole joi stream (("p", project) ∷ []) (refl, (refl, (refl, tt)))
      project-IsWhole
