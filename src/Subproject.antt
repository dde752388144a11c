-- ===== src/Subproject.antt =====
-- api/src/service/domain/workflow/subproject.ts and subproject_trace_event.ts: a subproject and its
-- validation after every change.
pub mod Created
pub mod Updated
pub mod Assigned
pub mod Closed
pub mod PermissionGranted
pub mod PermissionRevoked
pub mod BudgetUpdated
pub mod BudgetDeleted
pub mod Reordered
pub mod EventSourcing
use tru_budget.Base.{String, Bool, true, false, ◌&&◌, Option, List, all}
use tru_budget.Result.{Result, ok, err, joi_error}
use tru_budget.Joi.{Joi, if_given, or_empty, id_text}
use tru_budget.Money.{currency_code}
use tru_budget.Event.{
  Identity, Permissions, AdditionalData, Status, WorkflowitemType, ProjectedBudget, BusinessEvent,
}
use tru_budget.Event.Checks.{projected_budget_ok, any_permissions_ok, business_event_ok}

-- `entityType` is always "subproject"; the snapshot is the display name.
pub record TraceEvent : Type 0 where
  pub entity_id : String
  pub business_event : BusinessEvent
  pub display_name : Option String

pub record Subproject : Type 0 where
  pub id : String
  pub project_id : String
  pub created_at : String
  pub status : Status
  pub display_name : String
  pub description : String
  pub assignee : Identity
  pub validator : Option Identity
  pub workflowitem_type : Option WorkflowitemType
  pub currency : String
  pub projected_budgets : List ProjectedBudget
  pub workflowitem_ordering : List String
  pub permissions : Permissions
  pub log : List TraceEvent
  pub additional_data : AdditionalData

module _ (joi : Joi) where
  -- `subprojectTraceEventSchema`
  unfoldable pub trace_event_ok : TraceEvent → Bool
  trace_event_ok e =
      joi.string e.entity_id
      && business_event_ok joi e.business_event
      && if_given joi.string e.display_name

  -- `schema`
  unfoldable pub schema : Subproject → Bool
  schema s =
      id_text joi s.id
      && id_text joi s.project_id
      && joi.iso_date s.created_at
      && joi.string s.display_name
      && or_empty joi.string s.description
      && joi.string s.assignee
      && if_given joi.string s.validator
      && currency_code s.currency
      && all (projected_budget_ok joi) s.projected_budgets
      && all joi.string s.workflowitem_ordering
      && any_permissions_ok joi s.permissions
      && all trace_event_ok s.log

  unfoldable pub validate : Subproject → Result Subproject
  validate s = elim (schema s) [ true ↦ ok s | false ↦ err joi_error ]
