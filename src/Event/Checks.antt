-- ===== src/Event/Checks.antt =====
-- The schemas that the event and entity schemas under api/src/service/domain share, as tests on the
-- fields that a type leaves open.
use tru_budget.Base.{Bool, ◌&&◌, List, all, includes}
use tru_budget.Intents.{Intent, all_intents}
use tru_budget.Joi.{Joi, or_empty, id_text}
use tru_budget.Money.{money_amount, currency_code}
use tru_budget.Event.{
  Identity, Permissions, DocumentReference, ProjectedBudget, Header, WorkflowitemPlace,
  SubprojectPlace, BusinessEvent, type_of, header_of,
}

module _ (joi : Joi) where
  -- the lines `source`, `time` and `publisher` of each event's schema
  abbrev pub header_ok : Header → Bool
  header_ok h = or_empty joi.string h.source && joi.iso_date h.time && joi.string h.publisher

  -- the lines `projectId`, `subprojectId` and `workflowitemId`
  abbrev pub workflowitem_place_ok : WorkflowitemPlace → Bool
  workflowitem_place_ok p =
      id_text joi p.project_id && id_text joi p.subproject_id && id_text joi p.workflowitem_id

  abbrev pub subproject_place_ok : SubprojectPlace → Bool
  subproject_place_ok p = id_text joi p.project_id && id_text joi p.subproject_id

  -- `documentReferenceSchema`
  abbrev pub document_reference_ok : DocumentReference → Bool
  document_reference_ok d = joi.string d.id && joi.string d.file_name && joi.string d.hash

  -- `permissionsSchema`: known intents with texts
  abbrev pub permissions_ok : Permissions → Bool
  permissions_ok =
      all
        (λ (entry : Intent × List Identity). includes all_intents entry.0 && all joi.string entry.1)

  -- `Joi.object().pattern(/.*/, Joi.array().items(Joi.string()))`
  abbrev pub any_permissions_ok : Permissions → Bool
  any_permissions_ok = all (λ (entry : Intent × List Identity). all joi.string entry.1)

  -- `projectedBudgetSchema`
  abbrev pub projected_budget_ok : ProjectedBudget → Bool
  projected_budget_ok b =
      joi.string b.organization && money_amount joi b.value && currency_code b.currency_code

  -- `businessEventSchema`, which the trace events and notifications use: unlike the schemas of the
  -- events it does not allow an empty source.
  abbrev pub business_event_ok : BusinessEvent → Bool
  business_event_ok e =
      joi.string (type_of e)
      && joi.string (header_of e).source
      && joi.iso_date (header_of e).time
      && joi.string (header_of e).publisher
