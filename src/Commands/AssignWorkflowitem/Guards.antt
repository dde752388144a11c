-- ===== src/Commands/AssignWorkflowitem/Guards.antt =====
-- What a successful assignment of a workflowitem has checked.
use tru_budget.Base.{
  ◌≡◌, sym, ap, subst, ◌∙◌, ◌≢◌, ◌⊎◌, inl, inr, String, true, List, [], ◌∷◌, ◌++◌, arith, ===_cases,
}
use tru_budget.Result.{ok, map_err}
use tru_budget.Result.Inversion.{>>=-eq-ok, map_err-eq-ok}
use tru_budget.Joi.{Joi}
use tru_budget.Event.{Identity, WorkflowitemPlace, BusinessEvent, workflowitem_assigned}
use tru_budget.Identity.{ServiceUser, permits}
use tru_budget.Notification.{Ctx, header_at, notify}
use tru_budget.Workflowitem.{Workflowitem}
use tru_budget.Workflowitem.Assigned
use tru_budget.Workflowitem.EventSourcing.{new_workflowitem_from_event}
use tru_budget.Workflowitem.EventSourcing.Mutations.{ok-injective}
use tru_budget.Commands.{require_permission}
use tru_budget.Commands.Checks.{require_permission-eq-ok}
use tru_budget.Commands.AssignWorkflowitem.{Repository, assign_other, assign_workflowitem}

module _ (joi : Joi) (ctx : Ctx) (publisher : ServiceUser) (assignee : Identity)
    (place : WorkflowitemPlace) (repository : Repository) where
  abbrev pub assign_event : BusinessEvent
  assign_event = workflowitem_assigned (header_at ctx 0 publisher.id) place assignee

  -- What the command has established when it returns events for a workflowitem.
  pub record Assigns (w : Workflowitem) (events : List BusinessEvent) : Type 0 where
    pub may_assign :
        (publisher.id ≡ "root")
        ⊎ (permits w.permissions publisher ("workflowitem.assign" ∷ []) ≡ true)
    pub result : Workflowitem
    pub applies : new_workflowitem_from_event joi w assign_event ≡ ok result
    pub recipients : List String
    pub users : repository.get_users_for_identity assignee ≡ ok recipients
    pub notifications : List BusinessEvent
    pub notified :
        notify joi ctx "failed to create notification event" publisher.id assign_event
          place.project_id recipients
        ≡ ok notifications
    pub type_events : List BusinessEvent
    pub applied : repository.apply_workflowitem_type assign_event w ≡ ok type_events
    pub emitted : events ≡ assign_event ∷ (notifications ++ type_events)

  pub data Outcome (events : List BusinessEvent) (w : Workflowitem) : Type 0 where
    already_assigned : w.assignee ≡ assignee → events ≡ [] → Outcome events w
    assigns : w.assignee ≢ assignee → Assigns w events → Outcome events w

  create_event-eq-ok :
      {event : BusinessEvent}
      → Assigned.create_event joi (header_at ctx 0 publisher.id) place assignee ≡ ok event
      → event ≡ assign_event
  unfolding Assigned.create_event
  create_event-eq-ok e = ground arith

  assign_other-Assigns :
      (w : Workflowitem) {events : List BusinessEvent} {w' : Workflowitem}
      → assign_other joi ctx publisher assignee place repository w ≡ ok (events, w')
      → Assigns w events × (w ≡ w')
  unfolding assign_other
  assign_other-Assigns w {events = events} e =
      let (event, e0, r0) = >>=-eq-ok (map_err (Assigned.create_event joi _ place _) _) _ e in
      let (_, e1, r1) = >>=-eq-ok (require_permission publisher _ w.permissions) _ r0 in
      let (result, e2, r2) = >>=-eq-ok (map_err (new_workflowitem_from_event joi w event) _) _ r1 in
      let (recipients, e3, r3) = >>=-eq-ok (map_err (repository.get_users_for_identity _) _) _ r2 in
      let (notifications, e4, r4) = >>=-eq-ok (notify joi ctx _ _ event _ recipients) _ r3 in
      let (extra, e5, r5) =
        >>=-eq-ok (map_err (repository.apply_workflowitem_type event w) _) _ r4 in
      let same = create_event-eq-ok (map_err-eq-ok _ _ e0) in
      let done = ok-injective r5 in
      (
        record {
          may_assign = require_permission-eq-ok publisher "workflowitem.assign" w.permissions e1;
          result = result;
          applies =
              subst (λ x. new_workflowitem_from_event joi w x ≡ ok result) same
                (map_err-eq-ok _ _ e2);
          recipients = recipients;
          users = map_err-eq-ok _ _ e3;
          notifications = notifications;
          notified =
              subst
                (λ x.
                  notify joi ctx "failed to create notification event" publisher.id x
                    place.project_id recipients
                  ≡ ok notifications)
                same e4;
          type_events = extra;
          applied =
              subst (λ x. repository.apply_workflowitem_type x w ≡ ok extra) same
                (map_err-eq-ok _ _ e5);
          emitted = sym (ap (λ p. p.0) done) ∙ ap (λ x. x ∷ (notifications ++ extra)) same;
        },
        ap (λ p. p.1) done,
      )

  -- An assignment that succeeds returns the workflowitem as it was found. Either that is assigned
  -- to the assignee already, and no event is returned; or it is not, the publisher is root or may
  -- assign it, the event can be applied to it, and the events are the assignment, the notifications
  -- of the assignee's users and what the workflowitem's type adds.
  pub assign_workflowitem-Outcome :
      {events : List BusinessEvent} {w : Workflowitem}
      → assign_workflowitem joi ctx publisher assignee place repository ≡ ok (events, w)
      → (repository.get_workflowitem place.workflowitem_id ≡ ok w) × Outcome events w
  unfolding assign_workflowitem
  assign_workflowitem-Outcome {events = events} {w = w} e =
      let (found, e0, r0) = >>=-eq-ok (map_err (repository.get_workflowitem _) _) _ e in
      let got = map_err-eq-ok _ _ e0 in
      elim (===_cases assignee found.assignee) [
        | inl (own, t) ↦
            let done = ok-injective (rw t at r0) in
            let same : found ≡ w = ap (λ p. p.1) done in
            (
              got ∙ ap ok same,
              already_assigned (sym (ap (λ (v : Workflowitem). v.assignee) same) ∙ sym own)
                  (sym (ap (λ p. p.0) done)),
            )
        | inr (other, t) ↦
            let (assigned, same) = assign_other-Assigns found (rw t at r0) in
            (got ∙ ap ok same, subst (Outcome events) same (assigns (λ q. other (sym q)) assigned))
      ]
