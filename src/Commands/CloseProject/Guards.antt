-- ===== src/Commands/CloseProject/Guards.antt =====
-- What a successful close of a project has checked.
use tru_budget.Base.{
  ◌≡◌, sym, ap, subst, ◌∙◌, ◌⊎◌, inl, inr, String, true, not, ◌||◌, List, [], ◌∷◌, arith, any,
  includes, All, ◌===◌,
}
use tru_budget.Result.{ok, map_err, require}
use tru_budget.Result.Inversion.{>>=-eq-ok, map_err-eq-ok, require-eq-ok}
use tru_budget.Joi.{Joi}
use tru_budget.Event.{Status-cases, opened, closed, BusinessEvent, project_closed}
use tru_budget.Identity.{ServiceUser}
use tru_budget.Notification.{Ctx, header_at, notify}
use tru_budget.Subproject.{Subproject}
use tru_budget.Project.{Project}
use tru_budget.Project.Closed
use tru_budget.Project.EventSourcing.{new_project_from_event}
use tru_budget.Workflowitem.Ordering.{is_closed}
use tru_budget.Workflowitem.EventSourcing.Mutations.{ok-injective}
use tru_budget.Commands.Checks.{not-any-All, root_or_assigned}
use tru_budget.Commands.CloseProject.{Repository, close_open, close_project}

module _ (joi : Joi) (ctx : Ctx) (issuer : ServiceUser) (project_id : String)
    (repository : Repository) where
  abbrev pub close_event : BusinessEvent
  close_event = project_closed (header_at ctx 0 issuer.id) project_id

  -- What the command has established when it returns events for an open project.
  pub record Closes (project : Project) (events : List BusinessEvent) (result : Project)
      : Type 0 where
    pub assigned : List String
    pub users : repository.get_users_for_identity project.assignee ≡ ok assigned
    pub may_close : (issuer.id ≡ "root") ⊎ (includes assigned issuer.id ≡ true)
    pub subprojects : List Subproject
    pub listed : repository.get_subprojects project_id ≡ ok subprojects
    pub all_closed : All (λ (x : Subproject). x.status ≡ closed) subprojects
    pub rest : List BusinessEvent
    pub emitted : events ≡ close_event ∷ rest
    pub applies : new_project_from_event joi project close_event ≡ ok result

  pub data Outcome (events : List BusinessEvent) (result : Project) : Type 0 where
    already_closed :
        repository.get_project ≡ ok result
        → result.status ≡ closed
        → events ≡ []
        → Outcome events result
    closes :
        (project : Project)
        → repository.get_project ≡ ok project
        → project.status ≡ opened
        → Closes project events result
        → Outcome events result

  create_event-eq-ok :
      {event : BusinessEvent}
      → Closed.create_event joi (header_at ctx 0 issuer.id) project_id ≡ ok event
      → event ≡ close_event
  unfolding Closed.create_event
  create_event-eq-ok e = ground arith

  close_open-Closes :
      (project : Project) {events : List BusinessEvent} {result : Project}
      → close_open joi ctx issuer project_id repository project ≡ ok (events, result)
      → Closes project events result
  unfolding close_open
  close_open-Closes project {result = result} e =
      let (event, e0, r0) = >>=-eq-ok (map_err (Closed.create_event joi _ project_id) _) _ e in
      let (assigned, e1, r1) = >>=-eq-ok (map_err (repository.get_users_for_identity _) _) _ r0 in
      let (_, e2, r2) = >>=-eq-ok (require ((issuer.id === "root") || _) _) _ r1 in
      let (items, e3, r3) = >>=-eq-ok (map_err (repository.get_subprojects _) _) _ r2 in
      let (_, e4, r4) =
        >>=-eq-ok (require (not (any (λ (x : Subproject). not (is_closed x.status)) items)) _) _
          r3 in
      let (changed, e5, r5) = >>=-eq-ok (map_err (new_project_from_event joi _ event) _) _ r4 in
      let (notifications, e6, r6) = >>=-eq-ok (notify joi ctx _ _ event _ assigned) _ r5 in
      let same = create_event-eq-ok (map_err-eq-ok _ _ e0) in
      let done = ok-injective r6 in
      record {
        assigned = assigned;
        users = map_err-eq-ok _ _ e1;
        may_close = root_or_assigned issuer assigned (require-eq-ok _ _ e2);
        subprojects = items;
        listed = map_err-eq-ok _ _ e3;
        all_closed = not-any-All (λ (x : Subproject). x.status) items (require-eq-ok _ _ e4);
        rest = notifications;
        emitted = sym (ap (λ p. p.0) done) ∙ ap (λ x. x ∷ notifications) same;
        applies =
            subst (λ x. new_project_from_event joi project x ≡ ok result) same
              (map_err-eq-ok _ _ e5 ∙ ap ok (ap (λ p. p.1) done));
      }

  -- A close that succeeds found the project. Either that was closed already, and no event is
  -- returned; or it was open, the issuer is root or an assigned user, all subprojects of the
  -- project are closed, the close event leads to the returned project, and the events begin
  -- with it.
  pub close_project-Outcome :
      {events : List BusinessEvent} {result : Project}
      → close_project joi ctx issuer project_id repository ≡ ok (events, result)
      → Outcome events result
  unfolding close_project
  close_project-Outcome {events = events} {result = result} e =
      let (project, e0, r0) = >>=-eq-ok (map_err repository.get_project _) _ e in
      let found = map_err-eq-ok _ _ e0 in
      elim (Status-cases project.status) [
        | inl is_open ↦ closes project found is_open (close_open-Closes project (rw is_open at r0))
        | inr is_shut ↦
            let done = ok-injective (rw is_shut at r0) in
            let same : project ≡ result = ap (λ p. p.1) done in
            already_closed (found ∙ ap ok same)
              (subst (λ (s : Project). s.status ≡ closed) same is_shut) (sym (ap (λ p. p.0) done))
      ]
