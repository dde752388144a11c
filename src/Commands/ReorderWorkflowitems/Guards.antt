-- ===== src/Commands/ReorderWorkflowitems/Guards.antt =====
-- What a successful reordering has checked.
use tru_budget.Base.{
  ◌≡◌, sym, ap, subst, ◌∙◌, ◌⊎◌, ◌↔◌, ◌≢◌, inl, inr, String, Bool, true, List, [], ◌∷◌, arith,
  Bool-cases,
}
use tru_budget.Result.{ok, map_err}
use tru_budget.Result.Inversion.{>>=-eq-ok, map_err-eq-ok}
use tru_budget.Joi.{Joi}
use tru_budget.Event.{SubprojectPlace, BusinessEvent, workflowitems_reordered}
use tru_budget.Identity.{ServiceUser, permits}
use tru_budget.Notification.{Ctx, header_at}
use tru_budget.Subproject.{Subproject, schema, validate}
use tru_budget.Subproject.Reordered
use tru_budget.Subproject.EventSourcing.{new_subproject_from_event, get_event_module}
use tru_budget.Workflowitem.EventSourcing.Mutations.{ok-injective}
use tru_budget.Commands.{require_permission}
use tru_budget.Commands.Checks.{require_permission-eq-ok}
use tru_budget.Commands.ReorderWorkflowitems.{Repository, reorder, set_workflowitem_ordering}

validate-eq-ok : (joi : Joi) (s : Subproject) {v : Subproject} → validate joi s ≡ ok v → s ≡ v
unfolding validate
validate-eq-ok joi s e = elim (Bool-cases (schema joi s)) [
  | inl passes ↦ ok-injective (rw (passes, validate) at e)
  | inr fails ↦ cc (rw (fails, validate) at e)
]

module _ (is_equal : List String → List String → Bool) (joi : Joi) (ctx : Ctx)
    (issuer : ServiceUser) (place : SubprojectPlace) (ordering : List String)
    (repository : Repository) where
  abbrev pub reorder_event : BusinessEvent
  reorder_event = workflowitems_reordered (header_at ctx 0 issuer.id) place ordering

  -- What the command has established when it returns an event.
  pub record Reorders (subproject : Subproject) (events : List BusinessEvent) : Type 0 where
    pub may_reorder :
        (issuer.id ≡ "root")
        ⊎ (permits subproject.permissions issuer ("subproject.reorderWorkflowitems" ∷ []) ≡ true)
    pub result : Subproject
    pub applies : new_subproject_from_event joi subproject reorder_event ≡ ok result
    pub reordered : result.workflowitem_ordering ≡ ordering
    pub emitted : events ≡ reorder_event ∷ []

  pub data Outcome (subproject : Subproject) (events : List BusinessEvent) : Type 0 where
    unchanged :
        subproject.workflowitem_ordering ≡ ordering → events ≡ [] → Outcome subproject events
    changes :
        subproject.workflowitem_ordering ≢ ordering
        → Reorders subproject events
        → Outcome subproject events

  create_event-eq-ok :
      {event : BusinessEvent}
      → Reordered.create_event joi (header_at ctx 0 issuer.id) place ordering ≡ ok event
      → event ≡ reorder_event
  unfolding Reordered.create_event
  create_event-eq-ok e = ground arith

  new_subproject_from_event-ordering :
      (subproject : Subproject) {result : Subproject}
      → new_subproject_from_event joi subproject reorder_event ≡ ok result
      → result.workflowitem_ordering ≡ ordering
  unfolding new_subproject_from_event get_event_module Reordered.mutate
  new_subproject_from_event-ordering subproject e =
      let (valid, e1, r1) = >>=-eq-ok (map_err (validate joi _) _) _ e in
      sym (ap (λ (s : Subproject). s.workflowitem_ordering) (ok-injective r1))
      ∙ sym (
          ap (λ (s : Subproject). s.workflowitem_ordering)
            (validate-eq-ok joi _ (map_err-eq-ok _ _ e1)))

  module _ (compares : (xs ys : List String) → (is_equal xs ys ≡ true) ↔ (xs ≡ ys)) where
    reorder-Reorders :
        (subproject : Subproject) {events : List BusinessEvent}
        → subproject.workflowitem_ordering ≢ ordering
        → reorder is_equal joi ctx issuer place ordering repository subproject ≡ ok events
        → Reorders subproject events
    unfolding reorder
    reorder-Reorders subproject differs e =
        let (event, e0, r0) = >>=-eq-ok (map_err (Reordered.create_event joi _ place _) _) _ e in
        let (_, e1, r1) = >>=-eq-ok (require_permission issuer _ subproject.permissions) _ r0 in
        let (result, e2, r2) =
          >>=-eq-ok (map_err (new_subproject_from_event joi subproject event) _) _ r1 in
        let same = create_event-eq-ok (map_err-eq-ok _ _ e0) in
        let applies =
          subst (λ x. new_subproject_from_event joi subproject x ≡ ok result) same
            (map_err-eq-ok _ _ e2) in
        let reordered = new_subproject_from_event-ordering subproject applies in
        elim (Bool-cases (is_equal subproject.workflowitem_ordering result.workflowitem_ordering)) [
          | inl kept ↦ absurd (differs ((compares _ _).0 kept ∙ reordered))
          | inr changed ↦ record {
            may_reorder =
                require_permission-eq-ok issuer "subproject.reorderWorkflowitems"
                  subproject.permissions e1;
            result = result;
            applies = applies;
            reordered = reordered;
            emitted = sym (ok-injective r2) ∙ rw changed (ap (λ x. x ∷ []) same);
          }
        ]

    -- Where `isEqual` decides equality: a reordering that succeeds found the subproject. Either it
    -- has the ordering already, and no event is returned; or not, the issuer is root or may reorder
    -- its workflowitems, the event can be applied and gives it the ordering, and it is the one that
    -- is returned.
    pub set_workflowitem_ordering-Outcome :
        {events : List BusinessEvent}
        → set_workflowitem_ordering is_equal joi ctx issuer place ordering repository ≡ ok events
        → (subproject : Subproject) × (repository.get_subproject place.project_id
              place.subproject_id
            ≡ ok subproject)
          × Outcome subproject events
    unfolding set_workflowitem_ordering
    set_workflowitem_ordering-Outcome e =
        let (subproject, e0, r0) = >>=-eq-ok (map_err (repository.get_subproject _ _) _) _ e in
        let found = map_err-eq-ok _ _ e0 in
        (
          subproject,
          found,
          elim (Bool-cases (is_equal subproject.workflowitem_ordering ordering)) [
            | inl kept ↦ unchanged ((compares _ _).0 kept) (sym (ok-injective (rw kept at r0)))
            | inr other ↦
                let differs : subproject.workflowitem_ordering ≢ ordering =
                  λ q. cc (other, (compares subproject.workflowitem_ordering ordering).1 q) in
                changes differs (reorder-Reorders subproject differs (rw other at r0))
          ],
        )
