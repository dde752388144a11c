-- ===== src/Commands/CloseSubproject/Guards.antt =====
-- What a successful close of a subproject has checked.
use tru_budget.Base.{
  ◌≡◌, sym, ap, subst, ◌∙◌, ◌⊎◌, inl, inr, String, true, not, ◌||◌, List, [], ◌∷◌, arith, any,
  includes, All, ◌===◌,
}
use tru_budget.Result.{ok, map_err, require}
use tru_budget.Result.Inversion.{>>=-eq-ok, map_err-eq-ok, require-eq-ok}
use tru_budget.Joi.{Joi}
use tru_budget.Event.{
  Status-cases, opened, closed, SubprojectPlace, BusinessEvent, subproject_closed,
}
use tru_budget.Identity.{ServiceUser}
use tru_budget.Notification.{Ctx, header_at, notify}
use tru_budget.Subproject.{Subproject}
use tru_budget.Subproject.Closed
use tru_budget.Subproject.EventSourcing.{new_subproject_from_event}
use tru_budget.Workflowitem.{Workflowitem}
use tru_budget.Workflowitem.Ordering.{is_closed}
use tru_budget.Workflowitem.EventSourcing.Mutations.{ok-injective}
use tru_budget.Commands.Checks.{not-any-All, root_or_assigned}
use tru_budget.Commands.CloseSubproject.{Repository, close_open, close_subproject}

module _ (joi : Joi) (ctx : Ctx) (issuer : ServiceUser) (place : SubprojectPlace)
    (repository : Repository) where
  abbrev pub close_event : BusinessEvent
  close_event = subproject_closed (header_at ctx 0 issuer.id) place

  -- What the command has established when it returns events for an open subproject.
  pub record Closes (subproject : Subproject) (events : List BusinessEvent) (result : Subproject)
      : Type 0 where
    pub assigned : List String
    pub users : repository.get_users_for_identity subproject.assignee ≡ ok assigned
    pub may_close : (issuer.id ≡ "root") ⊎ (includes assigned issuer.id ≡ true)
    pub workflowitems : List Workflowitem
    pub listed :
        repository.get_workflowitems place.project_id place.subproject_id ≡ ok workflowitems
    pub all_closed : All (λ (x : Workflowitem). x.status ≡ closed) workflowitems
    pub rest : List BusinessEvent
    pub emitted : events ≡ close_event ∷ rest
    pub applies : new_subproject_from_event joi subproject close_event ≡ ok result

  pub data Outcome (events : List BusinessEvent) (result : Subproject) : Type 0 where
    already_closed :
        repository.get_subproject place.project_id place.subproject_id ≡ ok result
        → result.status ≡ closed
        → events ≡ []
        → Outcome events result
    closes :
        (subproject : Subproject)
        → repository.get_subproject place.project_id place.subproject_id ≡ ok subproject
        → subproject.status ≡ opened
        → Closes subproject events result
        → Outcome events result

  create_event-eq-ok :
      {event : BusinessEvent}
      → Closed.create_event joi (header_at ctx 0 issuer.id) place ≡ ok event
      → event ≡ close_event
  unfolding Closed.create_event
  create_event-eq-ok e = ground arith

  close_open-Closes :
      (subproject : Subproject) {events : List BusinessEvent} {result : Subproject}
      → close_open joi ctx issuer place repository subproject ≡ ok (events, result)
      → Closes subproject events result
  unfolding close_open
  close_open-Closes subproject {result = result} e =
      let (event, e0, r0) = >>=-eq-ok (map_err (Closed.create_event joi _ place) _) _ e in
      let (assigned, e1, r1) = >>=-eq-ok (map_err (repository.get_users_for_identity _) _) _ r0 in
      let (_, e2, r2) = >>=-eq-ok (require ((issuer.id === "root") || _) _) _ r1 in
      let (items, e3, r3) = >>=-eq-ok (map_err (repository.get_workflowitems _ _) _) _ r2 in
      let (_, e4, r4) =
        >>=-eq-ok (require (not (any (λ (x : Workflowitem). not (is_closed x.status)) items)) _) _
          r3 in
      let (changed, e5, r5) = >>=-eq-ok (map_err (new_subproject_from_event joi _ event) _) _ r4 in
      let (notifications, e6, r6) = >>=-eq-ok (notify joi ctx _ _ event _ assigned) _ r5 in
      let same = create_event-eq-ok (map_err-eq-ok _ _ e0) in
      let done = ok-injective r6 in
      record {
        assigned = assigned;
        users = map_err-eq-ok _ _ e1;
        may_close = root_or_assigned issuer assigned (require-eq-ok _ _ e2);
        workflowitems = items;
        listed = map_err-eq-ok _ _ e3;
        all_closed = not-any-All (λ (x : Workflowitem). x.status) items (require-eq-ok _ _ e4);
        rest = notifications;
        emitted = sym (ap (λ p. p.0) done) ∙ ap (λ x. x ∷ notifications) same;
        applies =
            subst (λ x. new_subproject_from_event joi subproject x ≡ ok result) same
              (map_err-eq-ok _ _ e5 ∙ ap ok (ap (λ p. p.1) done));
      }

  -- A close that succeeds found the subproject. Either that was closed already, and no event is
  -- returned; or it was open, the issuer is root or an assigned user, all workflowitems of the
  -- subproject are closed, the close event leads to the returned subproject, and the events begin
  -- with it.
  pub close_subproject-Outcome :
      {events : List BusinessEvent} {result : Subproject}
      → close_subproject joi ctx issuer place repository ≡ ok (events, result)
      → Outcome events result
  unfolding close_subproject
  close_subproject-Outcome {events = events} {result = result} e =
      let (subproject, e0, r0) = >>=-eq-ok (map_err (repository.get_subproject _ _) _) _ e in
      let found = map_err-eq-ok _ _ e0 in
      elim (Status-cases subproject.status) [
        | inl is_open ↦
            closes subproject found is_open (close_open-Closes subproject (rw is_open at r0))
        | inr is_shut ↦
            let done = ok-injective (rw is_shut at r0) in
            let same : subproject ≡ result = ap (λ p. p.1) done in
            already_closed (found ∙ ap ok same)
              (subst (λ (s : Subproject). s.status ≡ closed) same is_shut)
              (sym (ap (λ p. p.0) done))
      ]
