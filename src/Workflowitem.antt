-- ===== src/Workflowitem.antt =====
-- api/src/service/domain/workflow/workflowitem.ts and workflowitem_trace_event.ts: a workflowitem,
-- its validation after every change, and what a user without permissions sees of it.
pub mod Created
pub mod Updated
pub mod Assigned
pub mod Closed
pub mod PermissionGranted
pub mod PermissionRevoked
pub mod DocumentValidated
pub mod Billing
pub mod EventSourcing
pub mod Ordering
use tru_budget.Base.{
  String, Bool, true, false, ◌&&◌, Option, none, some, List, [], ◌∷◌, all, keep, map, ◌===◌,
}
use tru_budget.Result.{Result, ok, err, joi_error}
use tru_budget.Joi.{Joi, if_given, required, forbidden, or_empty, id_text}
use tru_budget.Money.{money_amount}
use tru_budget.Event.{
  Identity, Permissions, AdditionalData, Status, opened, closed, AmountType, not_applicable,
  disbursed, allocated, WorkflowitemType, DocumentReference, BusinessEvent, other_event, type_of,
  header_of,
}
use tru_budget.Event.Checks.{document_reference_ok, any_permissions_ok, business_event_ok}

pub record Snapshot : Type 0 where
  pub display_name : Option String
  pub amount : Option String
  pub currency : Option String
  pub amount_type : Option AmountType

-- `entityType` is always "workflowitem".
pub record TraceEvent : Type 0 where
  pub entity_id : String
  pub business_event : BusinessEvent
  pub snapshot : Snapshot

pub record Workflowitem : Type 0 where
  pub id : String
  pub subproject_id : String
  pub created_at : String
  pub due_date : Option String
  pub display_name : String
  pub exchange_rate : Option String
  pub billing_date : Option String
  pub amount : Option String
  pub currency : Option String
  pub amount_type : AmountType
  pub description : String
  pub status : Status
  pub reject_reason : Option String
  pub assignee : Identity
  pub documents : List DocumentReference
  pub permissions : Permissions
  pub log : List TraceEvent
  pub additional_data : AdditionalData
  pub workflowitem_type : Option WorkflowitemType

-- The fields that a redacted workflowitem keeps: all others are null or empty.
pub record RedactedWorkflowitem : Type 0 where
  pub id : String
  pub subproject_id : String
  pub created_at : String
  pub status : Status
  pub reject_reason : Option String
  pub log : List TraceEvent

-- `.when("amountType", { is: "N/A", then: forbidden, break: true })
--  .when("status", { is: "closed", then: required, otherwise: optional })`
abbrev pub money_field_ok : (String → Bool) → AmountType → Status → Option String → Bool
money_field_ok p not_applicable status field = forbidden field
money_field_ok p disbursed closed field = required p field
money_field_ok p disbursed opened field = if_given p field
money_field_ok p allocated closed field = required p field
money_field_ok p allocated opened field = if_given p field

module _ (joi : Joi) where
  -- `workflowitemTraceEventSchema`
  unfoldable pub trace_event_ok : TraceEvent → Bool
  trace_event_ok e =
      joi.string e.entity_id
      && business_event_ok joi e.business_event
      && if_given joi.string e.snapshot.display_name
      && if_given joi.string e.snapshot.amount
      && if_given joi.string e.snapshot.currency

  -- `schema`
  unfoldable pub schema : Workflowitem → Bool
  schema w =
      joi.string w.id
      && id_text joi w.subproject_id
      && joi.iso_date w.created_at
      && if_given (or_empty joi.iso_date) w.due_date
      && joi.string w.display_name
      && money_field_ok joi.string w.amount_type w.status w.exchange_rate
      && money_field_ok joi.iso_date w.amount_type w.status w.billing_date
      && money_field_ok (money_amount joi) w.amount_type w.status w.amount
      && money_field_ok joi.string w.amount_type w.status w.currency
      && or_empty joi.string w.description
      && if_given joi.string w.reject_reason
      && joi.string w.assignee
      && all (document_reference_ok joi) w.documents
      && any_permissions_ok joi w.permissions
      && all trace_event_ok w.log

  unfoldable pub validate : Workflowitem → Result Workflowitem
  validate w = elim (schema w) [ true ↦ ok w | false ↦ err joi_error ]

abbrev is_close : TraceEvent → Bool
is_close e = type_of e.business_event === "workflowitem_closed"

-- What is left of a trace event: the event's type and time.
abbrev redact_event : TraceEvent → TraceEvent
redact_event e = record {
  entity_id = e.entity_id;
  business_event = other_event (type_of e.business_event) (record {
    source = "REDACTED";
    time = (header_of e.business_event).time;
    publisher = "REDACTED";
  });
  snapshot = record { display_name = none; amount = none; currency = none; amount_type = none };
}

unfoldable pub redact_log : List TraceEvent → List TraceEvent
redact_log events = map redact_event (keep is_close events)

unfoldable pub redact : Workflowitem → RedactedWorkflowitem
unfolding redact_log
redact w = record {
  id = w.id;
  subproject_id = w.subproject_id;
  created_at = w.created_at;
  status = w.status;
  reject_reason = w.reject_reason;
  log = redact_log w.log;
}
