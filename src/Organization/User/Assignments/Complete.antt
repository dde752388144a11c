-- ===== src/Organization/User/Assignments/Complete.antt =====
-- No assignments are reported only of a user who has none, in
-- api/src/service/domain/workflow/user_assignments_get.ts.
use tru_budget.Base.{◌≡◌, ◌≢◌, ◌⊎◌, String, Bool, List, All}
use tru_budget.Result.{ok}
use tru_budget.Event.{closed}
use tru_budget.Identity.{ServiceUser}
use tru_budget.Workflowitem.{Workflowitem}
use tru_budget.Subproject.{Subproject}
use tru_budget.Project.{Project}
use tru_budget.Organization.User.Assignments.{Found, has_assignments, Repository, full}

abbrev is_busy : String → Found → Bool
is_busy user_id f = has_assignments (full user_id f)

module _ (user_id : String) where
  -- A workflowitem that is closed or not the user's.
  abbrev pub IsFreeItem : Workflowitem → Type 0
  IsFreeItem w = (w.status ≡ closed) ⊎ (w.assignee ≢ user_id)

  module _ (issuer : ServiceUser) (repository : Repository) where
    -- A subproject that is closed; or that is not the user's, as its workflowitems.
    abbrev pub IsFreeSubproject : String → Subproject → Type 0
    IsFreeSubproject project_id s =
        (s.status ≡ closed)
        ⊎ ((s.assignee ≢ user_id)
            × ((items : List Workflowitem) × (repository.get_workflowitems project_id s.id
                  ≡ ok items)
                × All IsFreeItem items))

    -- A project that is closed; or that is not the user's, as what it contains.
    abbrev pub IsFreeProject : Project → Type 0
    IsFreeProject p =
        (p.status ≡ closed)
        ⊎ ((p.assignee ≢ user_id)
            × ((subprojects : List Subproject) × (repository.get_subprojects p.id ≡ ok subprojects)
                × All (IsFreeSubproject p.id) subprojects))
