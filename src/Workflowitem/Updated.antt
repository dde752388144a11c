-- ===== src/Workflowitem/Updated.antt =====
-- api/src/service/domain/workflow/workflowitem_updated.ts
use tru_budget.Base.{
  Bool, true, false, ◌&&◌, Option, none, some, List, [], ◌∷◌, ◌++◌, all, find, ◌===◌, if◌then◌else◌,
}
use tru_budget.Result.{Result, ok, err, ◌>>=◌, map_err, verror, wrapped}
use tru_budget.Dict.{insert}
use tru_budget.Joi.{Joi, if_given, or_empty}
use tru_budget.Money.{money_amount, conversion_rate}
use tru_budget.Event.{
  AdditionalData, Status, opened, closed, AmountType, not_applicable, disbursed, allocated,
  DocumentReference, Header, WorkflowitemPlace, WorkflowitemModification, BusinessEvent,
  workflowitem_updated,
}
use tru_budget.Event.Checks.{header_ok, workflowitem_place_ok, document_reference_ok}
use tru_budget.Event.Create.{checked}
use tru_budget.Workflowitem.{Workflowitem}

pub modification_ok : Joi → WorkflowitemModification → Bool
modification_ok joi m =
    if_given joi.string m.display_name
    && if_given (or_empty joi.string) m.description
    && if_given (conversion_rate joi) m.exchange_rate
    && if_given joi.iso_date m.billing_date
    && if_given (money_amount joi) m.amount
    && if_given joi.string m.currency
    && if_given (or_empty joi.iso_date) m.due_date
    && if_given (all (document_reference_ok joi)) m.documents

unfoldable pub create_event :
    Joi → Header → WorkflowitemPlace → WorkflowitemModification → Result BusinessEvent
unfolding modification_ok
create_event joi header place update =
    checked (header_ok joi header && workflowitem_place_ok joi place && modification_ok joi update)
      (workflowitem_updated header place update)

-- `if (update[p] !== undefined) workflowitem[p] = update[p]`, for a field that is always there and
-- for one that may be missing
abbrev pub take_over {ℓ} : {A : Type ℓ} → Option A → A → A
take_over none old = old
take_over (some new) old = new

abbrev pub take_over_optional {ℓ} : {A : Type ℓ} → Option A → Option A → Option A
take_over_optional none old = old
take_over_optional (some new) old = some new

unfoldable pub update_props : WorkflowitemModification → Workflowitem → Workflowitem
update_props m w = record w {
  display_name = take_over m.display_name w.display_name;
  description = take_over m.description w.description;
  amount_type = take_over m.amount_type w.amount_type;
  amount = take_over_optional m.amount w.amount;
  currency = take_over_optional m.currency w.currency;
  exchange_rate = take_over_optional m.exchange_rate w.exchange_rate;
  billing_date = take_over_optional m.billing_date w.billing_date;
  due_date = take_over_optional m.due_date w.due_date;
}

-- the loop over the keys of the update
pub assign_data : AdditionalData → AdditionalData → AdditionalData
assign_data [] old = old
assign_data ((key, value) ∷ rest) old = assign_data rest (insert key value old)

abbrev pub update_additional_data : Option AdditionalData → AdditionalData → AdditionalData
update_additional_data none old = old
update_additional_data (some new) old = assign_data new old

-- One round of the loop: a new document is added, a known one must be unchanged.
unfoldable pub update_document :
    DocumentReference → List DocumentReference → Result (List DocumentReference)
update_document document known = elim (find (λ x. x.id === document.id) known) [
  | none ↦ ok (known ++ document ∷ [])
  | some existing ↦
      if existing.hash === document.hash
      then ok known
      else err (
          verror (
            "cannot update document " ∷ document.id
            ∷ ", as changing existing documents is not allowed" ∷ []))
]

unfoldable pub add_documents :
    List DocumentReference → List DocumentReference → Result (List DocumentReference)
unfolding update_document
add_documents [] known = ok known
add_documents (document ∷ documents) known = do
  known' ← update_document document known
  add_documents documents known'

abbrev pub update_documents :
    Option (List DocumentReference) → List DocumentReference → Result (List DocumentReference)
update_documents none known = ok known
update_documents (some documents) known = add_documents documents known

-- "N/A" removes the fields that make no sense with it.
abbrev pub clear_money : Option AmountType → Workflowitem → Workflowitem
clear_money (some not_applicable) w = record w {
  amount = none;
  currency = none;
  exchange_rate = none;
  billing_date = none;
}
clear_money (some disbursed) w = w
clear_money (some allocated) w = w
clear_money none w = w

abbrev pub is_open : Status → Bool
is_open opened = true
is_open closed = false

-- the changes, once the workflowitem is known to be open
unfoldable pub apply_update : WorkflowitemModification → Workflowitem → Result Workflowitem
unfolding update_props add_documents
apply_update update w = do
  documents ←
      map_err (update_documents update.documents w.documents)
        (λ e. wrapped e ("update documents failed" ∷ []))
  let props = update_props update w
  ok (
      clear_money update.amount_type (record props {
        additional_data = update_additional_data update.additional_data w.additional_data;
        documents = documents;
      }))

unfoldable pub mutate :
    Header → WorkflowitemPlace → WorkflowitemModification → Workflowitem → Result Workflowitem
mutate header place update w = elim w.status [
  | closed ↦ err (verror ("a workflowitem may only be updated if its status is \"open\"" ∷ []))
  | opened ↦ apply_update update w
]
