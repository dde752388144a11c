-- ===== src/Commands/CloseWorkflowitem/Guards.antt =====
-- What a successful close has checked.
use mathlib.Core.List.{Mem, mem-cons_self, mem-cons_of_mem}
use mathlib.Core.List.Perm
use tru_budget.Base.{
  ℕ, ◌≡◌, refl, sym, ap, subst, ◌∙◌, ◌⊎◌, inl, inr, String, Bool, true, Option, none, some, List,
  [], ◌∷◌, ◌++◌, arith, find, includes, All, Bool-cases, ===_cases, ===_eq, ◌===◌,
}
use tru_budget.Result.{ok, map_err, require}
use tru_budget.Result.Inversion.{>>=-eq-ok, map_err-eq-ok, require-eq-ok}
use tru_budget.Joi.{Joi}
use tru_budget.Event.{
  Status, Status-cases, opened, closed, WorkflowitemPlace, BusinessEvent, workflowitem_closed,
}
use tru_budget.Identity.{ServiceUser}
use tru_budget.Notification.{Ctx, header_at, notify}
use tru_budget.Subproject.{Subproject}
use tru_budget.Workflowitem.{Workflowitem}
use tru_budget.Workflowitem.Closed
use tru_budget.Workflowitem.EventSourcing.{new_workflowitem_from_event}
use tru_budget.Workflowitem.EventSourcing.Mutations.{ok-injective}
use tru_budget.Workflowitem.Ordering.{view, is_closed, sort_workflowitems}
use tru_budget.Workflowitem.Ordering.Sorted.{sort_workflowitems-perm}
use tru_budget.Commands.CloseWorkflowitem.{
  Repository, check_closer, previous_closed, close_open, close_found, close_workflowitem,
}

-- Who may close: root, or an assigned user whom no other validator excludes.
abbrev pub MayClose : ServiceUser → Option String → List String → Type 0
MayClose user validator assigned =
    (user.id ≡ "root")
    ⊎ ((validator ≡ none) ⊎ (validator ≡ some user.id)) × (includes assigned user.id ≡ true)

-- The workflowitem's place in the list: everything before it is closed.
abbrev pub IsNext : String → Workflowitem → List Workflowitem → Type 0
IsNext id w sorted =
    (before : List Workflowitem) × (later : List Workflowitem) × (sorted ≡ before ++ w ∷ later)
    × All (λ item. item.status ≡ closed) before

check_closer-MayClose :
    (user : ServiceUser) (validator : Option String) (assigned : List String) {u : Unit {0}}
    → check_closer user validator assigned ≡ ok u
    → MayClose user validator assigned
unfolding check_closer
check_closer-MayClose user none assigned e = ground (arith, ===_eq user.id "root")
check_closer-MayClose user (some v) assigned e =
    ground (arith, ===_eq user.id "root", ===_eq v user.id)

some-eq : {v w : Workflowitem} → some v ≡ some w → v ≡ w
some-eq e = cc

is_closed-closed : (s : Status) → is_closed s ≡ true → s ≡ closed
is_closed-closed closed h = refl
is_closed-closed opened h = cc

previous_closed-IsNext :
    (id : String) (sorted : List Workflowitem) {w : Workflowitem}
    → find (λ item. item.id === id) sorted ≡ some w
    → previous_closed id sorted ≡ true
    → IsNext id w sorted
unfolding previous_closed
previous_closed-IsNext id [] found h = cc
previous_closed-IsNext id (item ∷ rest) {w} found h = elim (Bool-cases (item.id === id)) [
  | inl own ↦ ([], rest, ap (λ x. x ∷ rest) (some-eq (rw own at found)), tt)
  | inr other ↦ elim (Bool-cases (is_closed item.status)) [
    | inl done ↦
        let (before, later, split, all_closed) =
          previous_closed-IsNext id rest {w = w} (rw other at found)
            (rw (other, done, previous_closed) at h) in
        (item ∷ before, later, ap (◌∷◌ item) split, (is_closed-closed item.status done, all_closed))
    | inr not_yet ↦ cc (rw (other, not_yet, previous_closed) at h)
  ]
]

find-id :
    (id : String) (items : List Workflowitem) {w : Workflowitem}
    → find (λ item. item.id === id) items ≡ some w
    → w.id ≡ id
find-id id [] e = cc
find-id id (item ∷ items) e = elim (===_cases item.id id) [
  | inl (same, t) ↦ sym (ap (λ (x : Workflowitem). x.id) (some-eq (rw t at e))) ∙ same
  | inr (_, t) ↦ find-id id items (rw t at e)
]

find-Mem :
    (p : Workflowitem → Bool) (items : List Workflowitem) {w : Workflowitem}
    → find p items ≡ some w
    → Mem w items
find-Mem p [] e = cc
find-Mem p (item ∷ items) {w} e = elim (Bool-cases (p item)) [
  | inl own ↦ subst (λ x. Mem x (item ∷ items)) (some-eq (rw own at e)) mem-cons_self
  | inr other ↦ mem-cons_of_mem item (find-Mem p items (rw other at e))
]

module _ (joi : Joi) (ctx : Ctx) (user : ServiceUser) (place : WorkflowitemPlace)
    (repository : Repository) (reject_reason : Option String) where
  -- What the command has established when it returns events for a workflowitem.
  pub record Closes (subproject : Subproject) (sorted : List Workflowitem) (w : Workflowitem)
      (events : List BusinessEvent) : Type 0 where
    pub assigned : List String
    pub users : repository.get_users_for_identity w.assignee ≡ ok assigned
    pub may_close : MayClose user subproject.validator assigned
    pub is_next : IsNext place.workflowitem_id w sorted
    pub rest : List BusinessEvent
    pub emitted : events ≡ workflowitem_closed (header_at ctx 0 user.id) place reject_reason ∷ rest
    pub result : Workflowitem
    pub applies :
        new_workflowitem_from_event joi w
          (workflowitem_closed (header_at ctx 0 user.id) place reject_reason)
        ≡ ok result

  create_event-eq-ok :
      {event : BusinessEvent}
      → Closed.create_event joi (header_at ctx 0 user.id) place reject_reason ≡ ok event
      → event ≡ workflowitem_closed (header_at ctx 0 user.id) place reject_reason
  unfolding Closed.create_event
  create_event-eq-ok e = ground arith

  close_open-Closes :
      (subproject : Subproject) (sorted : List Workflowitem) (w : Workflowitem)
      {events : List BusinessEvent}
      → find (λ item. item.id === place.workflowitem_id) sorted ≡ some w
      → close_open joi ctx user place repository reject_reason subproject sorted w ≡ ok events
      → Closes subproject sorted w events
  unfolding close_open
  close_open-Closes subproject sorted w found e =
      let (event, e0, r0) = >>=-eq-ok (map_err (Closed.create_event joi _ place _) _) _ e in
      let (assigned, e1, r1) = >>=-eq-ok (map_err (repository.get_users_for_identity _) _) _ r0 in
      let (_, e2, r2) = >>=-eq-ok (check_closer user _ assigned) _ r1 in
      let (_, e3, r3) = >>=-eq-ok (require (previous_closed _ sorted) _) _ r2 in
      let (result, e4, r4) = >>=-eq-ok (map_err (new_workflowitem_from_event joi w event) _) _ r3 in
      let (notifications, e5, r5) = >>=-eq-ok (notify joi ctx _ _ event _ assigned) _ r4 in
      let (extra, e6, r6) =
        >>=-eq-ok (map_err (repository.apply_workflowitem_type event w) _) _ r5 in
      let same = create_event-eq-ok (map_err-eq-ok _ _ e0) in
      record {
        assigned = assigned;
        users = map_err-eq-ok _ _ e1;
        may_close = check_closer-MayClose user subproject.validator assigned e2;
        is_next = previous_closed-IsNext place.workflowitem_id sorted found (require-eq-ok _ _ e3);
        rest = notifications ++ extra;
        emitted = sym (ok-injective r6) ∙ ap (λ x. x ∷ (notifications ++ extra)) same;
        result = result;
        applies =
            subst (λ x. new_workflowitem_from_event joi w x ≡ ok result) same
              (map_err-eq-ok _ _ e4);
      }

  -- The workflowitem that the command is about: the first of the place's ID in the sorted list of
  -- those that the repository lists.
  pub record Found (dates : String → Option ℕ) (w : Workflowitem) : Type 0 where
    pub items : List Workflowitem
    pub listed : repository.get_workflowitems place.project_id place.subproject_id ≡ ok items
    pub subproject : Subproject
    pub read : repository.get_subproject place.project_id place.subproject_id ≡ ok subproject
    pub sorted : List Workflowitem
    pub in_order : sort_workflowitems view dates subproject.workflowitem_ordering items ≡ sorted
    pub first : find (λ item. item.id === place.workflowitem_id) sorted ≡ some w
    pub is_listed : Mem w items
    pub named : w.id ≡ place.workflowitem_id

  -- What a run of the command that returns without an error has found.
  pub data Outcome (dates : String → Option ℕ) (events : List BusinessEvent) : Type 0 where
    already_closed :
        (w : Workflowitem) → Found dates w → w.status ≡ closed → events ≡ [] → Outcome dates events
    closes :
        (w : Workflowitem) (found : Found dates w)
        → w.status ≡ opened
        → Closes found.subproject found.sorted w events
        → Outcome dates events

  close_found-Outcome :
      (items : List Workflowitem) (subproject : Subproject) (dates : String → Option ℕ)
      {events : List BusinessEvent}
      → repository.get_workflowitems place.project_id place.subproject_id ≡ ok items
      → repository.get_subproject place.project_id place.subproject_id ≡ ok subproject
      → let sorted = sort_workflowitems view dates subproject.workflowitem_ordering items in
        (found : Option Workflowitem)
        → find (λ item. item.id === place.workflowitem_id) sorted ≡ found
        → close_found joi ctx user place repository reject_reason subproject sorted found
          ≡ ok events
        → Outcome dates events
  unfolding close_found
  close_found-Outcome items subproject dates e0 e1 none f h = cc
  close_found-Outcome items subproject dates e0 e1 (some w) f h =
      let found : Found dates w = record {
        items = items;
        listed = e0;
        subproject = subproject;
        read = e1;
        sorted = sort_workflowitems view dates subproject.workflowitem_ordering items;
        in_order = refl;
        first = f;
        is_listed =
            (Perm.mem_iff
                (sort_workflowitems-perm view dates subproject.workflowitem_ordering items)).0
              (find-Mem _ _ f);
        named = find-id _ _ f;
      } in
      elim (Status-cases w.status) [
        | inl is_open ↦
            closes w found is_open
              (close_open-Closes subproject _ w f (rw (is_open, close_found) at h))
        | inr is_shut ↦
            already_closed w found is_shut (sym (ok-injective (rw (is_shut, close_found) at h)))
      ]

  -- A close that succeeds found the workflowitem among those that the repository lists. Either that
  -- was closed already, and no event is returned; or it was open, the user is root or an assigned
  -- user and no other one is the validator, every workflowitem before it in the order is closed, the
  -- close event can be applied to it, and the events begin with the close event.
  pub close_workflowitem-Outcome :
      (dates : String → Option ℕ) {events : List BusinessEvent}
      → close_workflowitem joi ctx user place repository reject_reason dates ≡ ok events
      → Outcome dates events
  unfolding close_workflowitem
  close_workflowitem-Outcome dates e =
      let (items, e0, r0) = >>=-eq-ok (map_err (repository.get_workflowitems _ _) _) _ e in
      let (subproject, e1, r1) = >>=-eq-ok (map_err (repository.get_subproject _ _) _) _ r0 in
      close_found-Outcome items subproject dates (map_err-eq-ok _ _ e0) (map_err-eq-ok _ _ e1)
        (find (λ item. item.id === place.workflowitem_id)
          (sort_workflowitems view dates subproject.workflowitem_ordering items))
        refl r1
