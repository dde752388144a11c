-- ===== src/Workflowitem/EventSourcing/Keeps.antt =====
-- What no event changes in a workflowitem, and what every event leaves valid.
use tru_budget.Base.{◌≡◌, refl, ap, subst, ◌∙◌, inl, inr, true, [], Bool-cases}
use tru_budget.Result.{Result, ok, map_err}
use tru_budget.Result.Inversion.{>>=-eq-ok, map_err-eq-ok}
use tru_budget.Joi.{Joi}
use tru_budget.Event.{BusinessEvent}
use tru_budget.Workflowitem.{Workflowitem, schema, validate}
use tru_budget.Workflowitem.EventSourcing.{get_event_module, new_workflowitem_from_event}
use tru_budget.Workflowitem.EventSourcing.Mutations.{Keeps, get_event_module-Keeps, ok-injective}

-- The schema holds of the workflowitem with its log emptied, as sourcing validates it.
abbrev pub IsValid : Joi → Workflowitem → Type 0
IsValid joi w = schema joi (record w { log = [] }) ≡ true

pub validate-eq-ok :
    (joi : Joi) (w : Workflowitem) {v : Workflowitem}
    → validate joi w ≡ ok v
    → (schema joi w ≡ true) × (w ≡ v)
unfolding validate
validate-eq-ok joi w e = elim (Bool-cases (schema joi w)) [
  | inl passes ↦ (passes, ok-injective (rw (passes, validate) at e))
  | inr fails ↦ cc (rw (fails, validate) at e)
]

-- What an applied event has passed through.
pub record Applied (joi : Joi) (w : Workflowitem) (event : BusinessEvent) (w' : Workflowitem)
    : Type 0 where
  pub mutate : Workflowitem → Result Workflowitem
  pub found : get_event_module event ≡ ok mutate
  pub copy : Workflowitem
  pub mutated : mutate (record w { log = [] }) ≡ ok copy
  pub passes : schema joi copy ≡ true
  pub result : record copy { log = w.log } ≡ w'

pub new_workflowitem_from_event-Applied :
    (joi : Joi) (w : Workflowitem) (event : BusinessEvent) {w' : Workflowitem}
    → new_workflowitem_from_event joi w event ≡ ok w'
    → Applied joi w event w'
unfolding new_workflowitem_from_event
new_workflowitem_from_event-Applied joi w event e =
    let (mutate, found, rest) = >>=-eq-ok (get_event_module event) _ e in
    let (copy, changed, rest') = >>=-eq-ok (map_err (mutate (record w { log = [] })) _) _ rest in
    let (valid, checked, rest'') = >>=-eq-ok (map_err (validate joi copy) _) _ rest' in
    let (passes, same) = validate-eq-ok joi copy (map_err-eq-ok _ _ checked) in
    record {
      mutate = mutate;
      found = found;
      copy = copy;
      mutated = map_err-eq-ok _ _ changed;
      passes = passes;
      result = ap (λ (v : Workflowitem). record v { log = w.log }) same ∙ ok-injective rest'';
    }

Applied-Keeps :
    (joi : Joi) (w : Workflowitem) (event : BusinessEvent) {w' : Workflowitem}
    → Applied joi w event w'
    → Keeps w w' × IsValid joi w'
Applied-Keeps joi w event a =
    let kept : Keeps (record w { log = [] }) a.copy =
      get_event_module-Keeps event _ a.found a.mutated in
    let done : Keeps w (record a.copy { log = w.log }) = record {
      id = kept.id;
      subproject_id = kept.subproject_id;
      created_at = kept.created_at;
      workflowitem_type = kept.workflowitem_type;
      log = refl;
      documents = kept.documents;
      stays_closed = kept.stays_closed;
    } in
    let valid : IsValid joi (record a.copy { log = w.log }) =
      subst (λ l. schema joi (record a.copy { log = l }) ≡ true) kept.log a.passes in
    subst (λ v. Keeps w v × IsValid joi v) a.result (done, valid)

-- An event that is applied changes neither the ID, the subproject, the time of creation, the type
-- nor the log of the workflowitem, takes no document away and does not open a closed one; and the
-- result passes the schema once its log is emptied.
pub new_workflowitem_from_event-Keeps :
    (joi : Joi) (w : Workflowitem) (event : BusinessEvent) {w' : Workflowitem}
    → new_workflowitem_from_event joi w event ≡ ok w'
    → Keeps w w' × IsValid joi w'
new_workflowitem_from_event-Keeps joi w event e =
    Applied-Keeps joi w event (new_workflowitem_from_event-Applied joi w event e)
