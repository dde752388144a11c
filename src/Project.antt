-- ===== src/Project.antt =====
-- api/src/service/domain/workflow/project.ts and project_trace_event.ts: a project and its
-- validation after every change.
pub mod Created
pub mod Updated
pub mod Assigned
pub mod Closed
pub mod PermissionGranted
pub mod PermissionRevoked
pub mod BudgetUpdated
pub mod BudgetDeleted
pub mod EventSourcing
use tru_budget.Base.{
  ℕ, String, Bool, true, false, ◌&&◌, ◌||◌, not, Option, List, [], ◌∷◌, all, includes, codes,
}
use tru_budget.Result.{Result, ok, err, joi_error}
use tru_budget.Joi.{Joi, if_given, or_empty, id_text}
use tru_budget.Money.{between}
use tru_budget.Regex.{Regex, one, seq, star, plus, test}
use tru_budget.Event.{Identity, Permissions, AdditionalData, Status, ProjectedBudget, BusinessEvent}
use tru_budget.Event.Checks.{projected_budget_ok, permissions_ok, business_event_ok}

-- `entityType` is always "project"; the snapshot is the display name.
pub record TraceEvent : Type 0 where
  pub entity_id : String
  pub business_event : BusinessEvent
  pub display_name : String

pub record Project : Type 0 where
  pub id : String
  pub created_at : String
  pub status : Status
  pub display_name : String
  pub description : String
  pub assignee : Identity
  pub thumbnail : Option String
  pub projected_budgets : List ProjectedBudget
  pub permissions : Permissions
  pub log : List TraceEvent
  pub additional_data : AdditionalData
  pub tags : List String

-- `A-Za-zÀ-ÿ0-9`
abbrev pub is_word : ℕ → Bool
is_word c = between b'A' b'Z' c || between b'a' b'z' c || between 0xc0 0xff c || between b'0' b'9' c

-- `([A-Za-zÀ-ÿ0-9])*[A-Za-zÀ-ÿ0-9-_]+`
abbrev pub tag_pattern : Regex
tag_pattern =
    seq (star (one is_word))
      (plus (one (λ c. is_word c || between b'-' b'-' c || between b'_' b'_' c)))

-- `.unique()`
abbrev pub all_different : List String → Bool
all_different [] = true
all_different (t ∷ ts) = not (includes ts t) && all_different ts

module _ (joi : Joi) where
  -- `tagsSchema`
  unfoldable pub tag_ok : String → Bool
  unfolding test
  tag_ok t = joi.string t && test tag_pattern (codes t) && joi.max 15 t

  -- `projectTraceEventSchema`
  unfoldable pub trace_event_ok : TraceEvent → Bool
  trace_event_ok e =
      joi.string e.entity_id && business_event_ok joi e.business_event && joi.string e.display_name

  -- `schema`
  unfoldable pub schema : Project → Bool
  schema p =
      id_text joi p.id
      && joi.iso_date p.created_at
      && joi.string p.display_name
      && or_empty joi.string p.description
      && joi.string p.assignee
      && if_given (or_empty joi.string) p.thumbnail
      && all (projected_budget_ok joi) p.projected_budgets
      && permissions_ok joi p.permissions
      && all trace_event_ok p.log
      && all tag_ok p.tags
      && all_different p.tags

  unfoldable pub validate : Project → Result Project
  validate p = elim (schema p) [ true ↦ ok p | false ↦ err joi_error ]
