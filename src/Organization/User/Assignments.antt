-- ===== src/Organization/User/Assignments.antt =====
-- api/src/service/domain/workflow/user_assignments.ts and user_assignments_get.ts: the open projects,
-- subprojects and workflowitems that a user is assigned to. The objects that the loops push to are
-- passed on.
pub mod Complete
use tru_budget.Base.{
  String, Bool, true, false, not, ◌&&◌, ◌||◌, ◌===◌, Option, none, some, List, [], ◌∷◌, ◌++◌,
  if◌then◌else◌,
}
use tru_budget.Result.{Result, ok, ◌>>=◌, ◌>>◌, map_err, require, wrapped, not_authorized}
use tru_budget.Intents.{Intent}
use tru_budget.Event.{Status, opened, closed, Permissions}
use tru_budget.Identity.{ServiceUser, permits}
use tru_budget.Workflowitem.{Workflowitem}
use tru_budget.Subproject.{Subproject}
use tru_budget.Project.{Project}

pub record HiddenAssignments : Type 0 where
  pub has_hidden_projects : Bool
  pub has_hidden_subprojects : Bool
  pub has_hidden_workflowitems : Bool

-- A subproject stands with its project's ID, a workflowitem with its project's and subproject's.
pub record UserAssignments : Type 0 where
  pub user_id : String
  pub projects : Option (List Project)
  pub subprojects : Option (List (Subproject × String))
  pub workflowitems : Option (List (Workflowitem × String × String))
  pub hidden_assignments : Option HiddenAssignments

-- the lists and the object that the loops fill
pub record Found : Type 0 where
  pub projects : List Project
  pub subprojects : List (Subproject × String)
  pub workflowitems : List (Workflowitem × String × String)
  pub hidden : HiddenAssignments

-- `isEmpty` of api/src/lib/emptyChecks.ts, on a list
abbrev pub is_empty {ℓ} : {A : Type ℓ} → Option (List A) → Bool
is_empty none = true
is_empty (some []) = true
is_empty (some (_ ∷ _)) = false

abbrev pub has_hidden : Option HiddenAssignments → Bool
has_hidden none = false
has_hidden (some h) =
    h.has_hidden_projects || h.has_hidden_subprojects || h.has_hidden_workflowitems

unfoldable pub has_assignments : UserAssignments → Bool
has_assignments a =
    not (is_empty a.projects)
    || not (is_empty a.subprojects)
    || not (is_empty a.workflowitems)
    || has_hidden a.hidden_assignments

-- The reduces of `toString`, over the names that are shown.
abbrev each_name {ℓ} : {A : Type ℓ} → (A → String) → List A → List String
each_name name [] = []
each_name name (x ∷ xs) = name x ∷ ", " ∷ each_name name xs

abbrev names {ℓ} : {A : Type ℓ} → (A → String) → String → Option (List A) → List String
names name title none = []
names name title (some xs) = title ∷ each_name name xs

abbrev shown_if : Bool → String → List String
shown_if true text = text ∷ []
shown_if false text = []

abbrev hidden_names : Option HiddenAssignments → List String
hidden_names none = []
hidden_names (some h) =
    "Redacted assignments: " ∷ shown_if h.has_hidden_projects "one or more projects, "
    ++ shown_if h.has_hidden_subprojects "one or more subprojects, "
    ++ shown_if h.has_hidden_workflowitems "one or more workflowitems"

-- `toString`, as the list of the text's pieces
unfoldable pub to_string : UserAssignments → List String
to_string a =
    names (λ (p : Project). p.display_name) "Assigned projects: " a.projects
    ++ names (λ (s : Subproject × String). s.0.display_name) " Assigned subprojects: " a.subprojects
    ++ names (λ (w : Workflowitem × String × String). w.0.display_name) " Assigned workflowitems: "
        a.workflowitems
    ++ hidden_names a.hidden_assignments

-- The repository; of the user the organization is read.
pub record Repository : Type 0 where
  pub get_all_projects : Result (List Project)
  pub get_subprojects : String → Result (List Subproject)
  pub get_workflowitems : String → String → Result (List Workflowitem)
  pub organization_of : String → Result String

abbrev pub nothing_found : Found
nothing_found = record {
  projects = [];
  subprojects = [];
  workflowitems = [];
  hidden = record {
    has_hidden_projects = false;
    has_hidden_subprojects = false;
    has_hidden_workflowitems = false;
  };
}

abbrev pub full : String → Found → UserAssignments
full user_id f = record {
  user_id = user_id;
  projects = some f.projects;
  subprojects = some f.subprojects;
  workflowitems = some f.workflowitems;
  hidden_assignments = some f.hidden;
}

-- the answer without assignments
abbrev pub bare : String → UserAssignments
bare user_id = record {
  user_id = user_id;
  projects = none;
  subprojects = none;
  workflowitems = none;
  hidden_assignments = none;
}

module _ (user_id : String) (issuer : ServiceUser) (repository : Repository) where
  -- `isRoot || permits(…)`
  abbrev pub may_see : Permissions → List Intent → Bool
  may_see permissions intents = (issuer.id === "root") || permits permissions issuer intents

  abbrev pub note_project : Project → Found → Found
  note_project p f =
      if p.assignee === user_id
      then if may_see p.permissions ("project.list" ∷ "project.viewDetails" ∷ [])
        then record f { projects = f.projects ++ p ∷ [] }
        else record f { hidden = record f.hidden { has_hidden_projects = true } }
      else f

  abbrev pub note_subproject : String → Subproject → Found → Found
  note_subproject project_id s f =
      if s.assignee === user_id
      then if may_see s.permissions ("subproject.list" ∷ "subproject.viewDetails" ∷ [])
        then record f { subprojects = f.subprojects ++ (s, project_id) ∷ [] }
        else record f { hidden = record f.hidden { has_hidden_subprojects = true } }
      else f

  abbrev pub note_workflowitem : String → String → Workflowitem → Found → Found
  note_workflowitem project_id subproject_id w f =
      if w.assignee === user_id
      then if may_see w.permissions ("workflowitem.list" ∷ [])
        then record f { workflowitems = f.workflowitems ++ (w, project_id, subproject_id) ∷ [] }
        else record f { hidden = record f.hidden { has_hidden_workflowitems = true } }
      else f

  -- the body of the inner loop; `continue` for a closed workflowitem
  abbrev pub visit_workflowitem : String → String → Status → Workflowitem → Found → Found
  visit_workflowitem project_id subproject_id closed w f = f
  visit_workflowitem project_id subproject_id opened w f =
      note_workflowitem project_id subproject_id w f

  unfoldable pub visit_workflowitems : String → String → List Workflowitem → Found → Found
  visit_workflowitems project_id subproject_id [] f = f
  visit_workflowitems project_id subproject_id (w ∷ ws) f =
      visit_workflowitems project_id subproject_id ws
        (visit_workflowitem project_id subproject_id w.status w f)

  abbrev pub visit_subproject : String → Status → Subproject → Found → Result Found
  visit_subproject project_id closed s f = ok f
  visit_subproject project_id opened s f = do
    workflowitems ←
        map_err (repository.get_workflowitems project_id s.id)
          (λ e. wrapped e ("failed to fetch workflowitems" ∷ []))
    ok (visit_workflowitems project_id s.id workflowitems (note_subproject project_id s f))

  unfoldable pub visit_subprojects : String → List Subproject → Found → Result Found
  visit_subprojects project_id [] f = ok f
  visit_subprojects project_id (s ∷ ss) f =
      visit_subproject project_id s.status s f >>= visit_subprojects project_id ss

  abbrev pub visit_project : Status → Project → Found → Result Found
  visit_project closed p f = ok f
  visit_project opened p f = do
    subprojects ←
        map_err (repository.get_subprojects p.id)
          (λ e. wrapped e ("failed to fetch subprojects" ∷ []))
    visit_subprojects p.id subprojects (note_project p f)

  unfoldable pub visit_projects : List Project → Found → Result Found
  visit_projects [] f = ok f
  visit_projects (p ∷ ps) f = visit_project p.status p f >>= visit_projects ps

  -- `getUserAssignments`
  unfoldable pub get_user_assignments : String → Result UserAssignments
  get_user_assignments issuer_organization = do
    organization ←
        map_err (repository.organization_of user_id) (λ e. wrapped e ("Error getting user" ∷ []))
    require (organization === issuer_organization)
        (not_authorized issuer.id "global.listAssignments")
    projects ←
        map_err repository.get_all_projects (λ e. wrapped e ("failed to fetch projects" ∷ []))
    f ← visit_projects projects nothing_found
    ok (if has_assignments (full user_id f) then full user_id f else bare user_id)
