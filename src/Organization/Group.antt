-- ===== src/Organization/Group.antt =====
-- api/src/service/domain/organization/group.ts and group_trace_event.ts; the events of groups and
-- the commands that return them are children.
pub mod EventSourcing
pub mod Membership
pub mod Create
pub mod RoundTrip
use tru_budget.Base.{String, Bool, true, false, ◌&&◌, List, all}
use tru_budget.Result.{Result, ok, err, joi_error}
use tru_budget.Joi.{Joi, or_empty}
use tru_budget.Intents.{Intent}
use tru_budget.Event.{Identity, Permissions, AdditionalData, BusinessEvent}
use tru_budget.Event.Checks.{business_event_ok, permissions_ok}
use tru_budget.Identity.{ServiceUser}
use tru_budget.Identity

pub record GroupTraceEvent : Type 0 where
  pub entity_id : String
  pub business_event : BusinessEvent
  -- `snapshot.displayName`
  pub display_name : String

pub record Group : Type 0 where
  pub id : String
  pub created_at : String
  pub display_name : String
  pub description : String
  pub members : List Identity
  pub permissions : Permissions
  pub log : List GroupTraceEvent
  pub additional_data : AdditionalData

module _ (joi : Joi) where
  -- `groupTraceEventSchema`
  unfoldable pub trace_event_ok : GroupTraceEvent → Bool
  trace_event_ok e =
      joi.string e.entity_id && business_event_ok joi e.business_event && joi.string e.display_name

  unfoldable pub schema : Group → Bool
  schema g =
      joi.string g.id
      && joi.iso_date g.created_at
      && joi.string g.display_name
      && or_empty joi.string g.description
      && all joi.string g.members
      && permissions_ok joi g.permissions
      && all trace_event_ok g.log

  -- `!error ? value : error`
  abbrev pub answered : Bool → Group → Result Group
  answered true g = ok g
  answered false g = err joi_error

  unfoldable pub validate : Group → Result Group
  validate g = answered (schema g) g

unfoldable pub permits : Group → ServiceUser → List Intent → Bool
permits group acting_user intents = Identity.permits group.permissions acting_user intents
