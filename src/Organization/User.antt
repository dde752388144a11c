-- ===== src/Organization/User.antt =====
-- api/src/service/domain/organization/user_record.ts and user_trace_event.ts; the events of users and
-- the commands that return them are children.
pub mod Events
pub mod EventSourcing
pub mod Assignments
pub mod Availability
pub mod Disabled
use tru_budget.Base.{String, Bool, true, false, ◌&&◌, List, all}
use tru_budget.Result.{Result, ok, err, joi_error}
use tru_budget.Joi.{Joi, id_text}
use tru_budget.Intents.{Intent}
use tru_budget.Event.{Permissions, AdditionalData, BusinessEvent}
use tru_budget.Event.Checks.{business_event_ok, permissions_ok}
use tru_budget.Identity.{ServiceUser}
use tru_budget.Identity

pub record UserTraceEvent : Type 0 where
  pub entity_id : String
  pub business_event : BusinessEvent
  -- `snapshot.displayName`
  pub display_name : String

pub record UserRecord : Type 0 where
  pub id : String
  pub created_at : String
  pub display_name : String
  pub organization : String
  pub password_hash : String
  pub address : String
  pub encrypted_priv_key : String
  pub permissions : Permissions
  pub log : List UserTraceEvent
  pub additional_data : AdditionalData

module _ (joi : Joi) where
  -- `userTraceEventSchema`
  unfoldable pub trace_event_ok : UserTraceEvent → Bool
  trace_event_ok e =
      joi.string e.entity_id && business_event_ok joi e.business_event && joi.string e.display_name

  unfoldable pub schema : UserRecord → Bool
  schema u =
      id_text joi u.id
      && joi.iso_date u.created_at
      && joi.string u.display_name
      && joi.string u.organization
      && joi.string u.password_hash
      && joi.string u.address
      && joi.string u.encrypted_priv_key
      && permissions_ok joi u.permissions
      && all trace_event_ok u.log

  -- `!error ? value : error`
  abbrev pub answered : Bool → UserRecord → Result UserRecord
  answered true u = ok u
  answered false u = err joi_error

  unfoldable pub validate : UserRecord → Result UserRecord
  validate u = answered (schema u) u

unfoldable pub permits : UserRecord → ServiceUser → List Intent → Bool
permits user acting_user intents = Identity.permits user.permissions acting_user intents
