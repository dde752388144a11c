-- ===== src/Event.antt =====
-- The business events that the chain stores (api/src/service/domain/business_event.ts and the
-- `Event` interfaces beside each operation), with the data that they carry. Events of the parts that
-- are not modelled are kept by their type's text.
pub mod Checks
pub mod Create
use tru_budget.Base.{
  ℕ, String, Bool, true, false, Option, none, some, List, ◌≡◌, refl, ◌⊎◌, inl, inr,
}
use tru_budget.Dict.{Dict}
use tru_budget.Intents.{Intent}

abbrev pub Identity : Type 0
Identity = String

abbrev pub Permissions : Type 0
Permissions = Dict (List Identity)

-- The values of additional data are only copied: each is kept as its JSON text.
abbrev pub AdditionalData : Type 0
AdditionalData = Dict String

-- "open" and "closed"
pub data Status : Type 0 where
  opened closed : Status

pub Status-cases : (s : Status) → (s ≡ opened) ⊎ (s ≡ closed)
Status-cases opened = inl refl
Status-cases closed = inr refl

-- What is closed before is closed after.
abbrev pub StaysClosed : Status → Status → Type 0
StaysClosed earlier later = (earlier ≡ opened) ⊎ (later ≡ closed)

pub StaysClosed-refl : (s : Status) → StaysClosed s s
StaysClosed-refl opened = inl refl
StaysClosed-refl closed = inr refl

pub StaysClosed-trans : (s t u : Status) → StaysClosed s t → StaysClosed t u → StaysClosed s u
StaysClosed-trans s t u (inl a) b = inl a
StaysClosed-trans s t u (inr a) (inl b) = cc
StaysClosed-trans s t u (inr a) (inr b) = inr b

-- "N/A", "disbursed" and "allocated"
pub data AmountType : Type 0 where
  not_applicable disbursed allocated : AmountType

pub data WorkflowitemType : Type 0 where
  general restricted : WorkflowitemType

pub record DocumentReference : Type 0 where
  pub id : String
  pub file_name : String
  pub hash : String
  pub available : Option Bool

pub record ProjectedBudget : Type 0 where
  pub organization : String
  pub value : String
  pub currency_code : String

-- What every event begins with.
pub record Header : Type 0 where
  pub source : String
  pub time : String
  pub publisher : Identity

-- Where an event of a workflowitem, or of a subproject, belongs.
pub record WorkflowitemPlace : Type 0 where
  pub project_id : String
  pub subproject_id : String
  pub workflowitem_id : String

pub record SubprojectPlace : Type 0 where
  pub project_id : String
  pub subproject_id : String

pub record WorkflowitemInitialData : Type 0 where
  pub id : String
  pub status : Status
  pub display_name : String
  pub description : String
  pub assignee : Identity
  pub amount : Option String
  pub currency : Option String
  pub amount_type : AmountType
  pub exchange_rate : Option String
  pub billing_date : Option String
  pub due_date : Option String
  pub documents : List DocumentReference
  pub permissions : Permissions
  pub additional_data : AdditionalData
  pub workflowitem_type : Option WorkflowitemType

pub record WorkflowitemModification : Type 0 where
  pub display_name : Option String
  pub description : Option String
  pub amount : Option String
  pub currency : Option String
  pub amount_type : Option AmountType
  pub exchange_rate : Option String
  pub billing_date : Option String
  pub due_date : Option String
  pub documents : Option (List DocumentReference)
  pub additional_data : Option AdditionalData

pub record SubprojectInitialData : Type 0 where
  pub id : String
  pub status : Status
  pub display_name : String
  pub description : String
  pub assignee : Identity
  pub validator : Option Identity
  pub workflowitem_type : Option WorkflowitemType
  pub currency : String
  pub projected_budgets : List ProjectedBudget
  pub permissions : Permissions
  pub additional_data : AdditionalData

pub record SubprojectUpdate : Type 0 where
  pub display_name : Option String
  pub description : Option String
  pub additional_data : Option AdditionalData

pub record ProjectInitialData : Type 0 where
  pub id : String
  pub status : Status
  pub display_name : String
  pub description : String
  pub assignee : Identity
  pub thumbnail : Option String
  pub projected_budgets : List ProjectedBudget
  pub permissions : Permissions
  pub additional_data : AdditionalData
  pub tags : Option (List String)

pub record ProjectModification : Type 0 where
  pub display_name : Option String
  pub description : Option String
  pub thumbnail : Option String
  pub additional_data : Option AdditionalData
  pub tags : Option (List String)

pub record GroupInitialData : Type 0 where
  pub id : String
  pub display_name : String
  pub description : String
  pub members : List Identity
  pub permissions : Permissions
  pub additional_data : AdditionalData

pub record UserInitialData : Type 0 where
  pub id : String
  pub display_name : String
  pub organization : String
  pub password_hash : String
  pub address : String
  pub encrypted_priv_key : String
  pub permissions : Permissions
  pub additional_data : AdditionalData

pub data BusinessEvent : Type 0 where
  workflowitem_created :
      (header : Header) (place : SubprojectPlace) (workflowitem : WorkflowitemInitialData)
      → BusinessEvent
  workflowitem_updated :
      (header : Header) (place : WorkflowitemPlace) (update : WorkflowitemModification)
      → BusinessEvent
  workflowitem_assigned :
      (header : Header) (place : WorkflowitemPlace) (assignee : Identity) → BusinessEvent
  workflowitem_closed :
      (header : Header) (place : WorkflowitemPlace) (reject_reason : Option String) → BusinessEvent
  workflowitem_permission_granted :
      (header : Header) (place : WorkflowitemPlace) (permission : Intent) (grantee : Identity)
      → BusinessEvent
  workflowitem_permission_revoked :
      (header : Header) (place : WorkflowitemPlace) (permission : Intent) (revokee : Identity)
      → BusinessEvent
  workflowitem_document_validated :
      (header : Header) (place : WorkflowitemPlace) (is_valid : Bool) (document_id : String)
      → BusinessEvent
  workflowitems_reordered :
      (header : Header) (place : SubprojectPlace) (ordering : List String) → BusinessEvent
  subproject_created :
      (header : Header) (project_id : String) (subproject : SubprojectInitialData) → BusinessEvent
  subproject_updated :
      (header : Header) (place : SubprojectPlace) (update : SubprojectUpdate) → BusinessEvent
  subproject_assigned :
      (header : Header) (place : SubprojectPlace) (assignee : Identity) → BusinessEvent
  subproject_closed : (header : Header) (place : SubprojectPlace) → BusinessEvent
  subproject_permission_granted :
      (header : Header) (place : SubprojectPlace) (permission : Intent) (grantee : Identity)
      → BusinessEvent
  subproject_permission_revoked :
      (header : Header) (place : SubprojectPlace) (permission : Intent) (revokee : Identity)
      → BusinessEvent
  subproject_projected_budget_updated :
      (header : Header) (place : SubprojectPlace) (budget : ProjectedBudget) → BusinessEvent
  subproject_projected_budget_deleted :
      (header : Header) (place : SubprojectPlace) (organization currency_code : String)
      → BusinessEvent
  project_created : (header : Header) (project : ProjectInitialData) → BusinessEvent
  project_updated :
      (header : Header) (project_id : String) (update : ProjectModification) → BusinessEvent
  project_assigned : (header : Header) (project_id : String) (assignee : Identity) → BusinessEvent
  project_closed : (header : Header) (project_id : String) → BusinessEvent
  project_permission_granted :
      (header : Header) (project_id : String) (permission : Intent) (grantee : Identity)
      → BusinessEvent
  project_permission_revoked :
      (header : Header) (project_id : String) (permission : Intent) (revokee : Identity)
      → BusinessEvent
  project_projected_budget_updated :
      (header : Header) (project_id : String) (budget : ProjectedBudget) → BusinessEvent
  project_projected_budget_deleted :
      (header : Header) (project_id : String) (organization currency_code : String) → BusinessEvent
  notification_created :
      (header : Header) (notification_id recipient : String) (business_event : BusinessEvent)
      (project_id subproject_id workflowitem_id : Option String)
      → BusinessEvent
  global_permission_granted :
      (header : Header) (permission : Intent) (grantee : Identity) → BusinessEvent
  global_permission_revoked :
      (header : Header) (permission : Intent) (revokee : Identity) → BusinessEvent
  notification_marked_read : (header : Header) (notification_id recipient : String) → BusinessEvent
  group_created : (header : Header) (group : GroupInitialData) → BusinessEvent
  group_member_added :
      (header : Header) (group_id : String) (new_members : List Identity) → BusinessEvent
  group_member_removed :
      (header : Header) (group_id : String) (members : List Identity) → BusinessEvent
  group_permissions_granted :
      (header : Header) (group_id : String) (permission : Intent) (grantee : Identity)
      → BusinessEvent
  group_permissions_revoked :
      (header : Header) (group_id : String) (permission : Intent) (revokee : Identity)
      → BusinessEvent
  user_created : (header : Header) (user : UserInitialData) → BusinessEvent
  user_enabled : (header : Header) (user_id : String) → BusinessEvent
  user_disabled : (header : Header) (user_id : String) → BusinessEvent
  user_password_changed : (header : Header) (user_id password_hash : String) → BusinessEvent
  user_permission_granted :
      (header : Header) (user_id : String) (permission : Intent) (grantee : Identity)
      → BusinessEvent
  user_permission_revoked :
      (header : Header) (user_id : String) (permission : Intent) (revokee : Identity)
      → BusinessEvent
  other_event : (type : String) (header : Header) → BusinessEvent

-- `event.type`
abbrev pub type_of : BusinessEvent → String
type_of (workflowitem_created _ _ _) = "workflowitem_created"
type_of (workflowitem_updated _ _ _) = "workflowitem_updated"
type_of (workflowitem_assigned _ _ _) = "workflowitem_assigned"
type_of (workflowitem_closed _ _ _) = "workflowitem_closed"
type_of (workflowitem_permission_granted _ _ _ _) = "workflowitem_permission_granted"
type_of (workflowitem_permission_revoked _ _ _ _) = "workflowitem_permission_revoked"
type_of (workflowitem_document_validated _ _ _ _) = "workflowitem_document_validated"
type_of (workflowitems_reordered _ _ _) = "workflowitems_reordered"
type_of (subproject_created _ _ _) = "subproject_created"
type_of (subproject_updated _ _ _) = "subproject_updated"
type_of (subproject_assigned _ _ _) = "subproject_assigned"
type_of (subproject_closed _ _) = "subproject_closed"
type_of (subproject_permission_granted _ _ _ _) = "subproject_permission_granted"
type_of (subproject_permission_revoked _ _ _ _) = "subproject_permission_revoked"
type_of (subproject_projected_budget_updated _ _ _) = "subproject_projected_budget_updated"
type_of (subproject_projected_budget_deleted _ _ _ _) = "subproject_projected_budget_deleted"
type_of (project_created _ _) = "project_created"
type_of (project_updated _ _ _) = "project_updated"
type_of (project_assigned _ _ _) = "project_assigned"
type_of (project_closed _ _) = "project_closed"
type_of (project_permission_granted _ _ _ _) = "project_permission_granted"
type_of (project_permission_revoked _ _ _ _) = "project_permission_revoked"
type_of (project_projected_budget_updated _ _ _) = "project_projected_budget_updated"
type_of (project_projected_budget_deleted _ _ _ _) = "project_projected_budget_deleted"
type_of (notification_created _ _ _ _ _ _ _) = "notification_created"
type_of (global_permission_granted _ _ _) = "global_permission_granted"
type_of (global_permission_revoked _ _ _) = "global_permission_revoked"
type_of (notification_marked_read _ _ _) = "notification_marked_read"
type_of (group_created _ _) = "group_created"
type_of (group_member_added _ _ _) = "group_member_added"
type_of (group_member_removed _ _ _) = "group_member_removed"
type_of (group_permissions_granted _ _ _ _) = "group_permissions_granted"
type_of (group_permissions_revoked _ _ _ _) = "group_permissions_revoked"
type_of (user_created _ _) = "user_created"
type_of (user_enabled _ _) = "user_enabled"
type_of (user_disabled _ _) = "user_disabled"
type_of (user_password_changed _ _ _) = "user_password_changed"
type_of (user_permission_granted _ _ _ _) = "user_permission_granted"
type_of (user_permission_revoked _ _ _ _) = "user_permission_revoked"
type_of (other_event type _) = type

-- The fields that every event has.
abbrev pub header_of : BusinessEvent → Header
header_of (workflowitem_created h _ _) = h
header_of (workflowitem_updated h _ _) = h
header_of (workflowitem_assigned h _ _) = h
header_of (workflowitem_closed h _ _) = h
header_of (workflowitem_permission_granted h _ _ _) = h
header_of (workflowitem_permission_revoked h _ _ _) = h
header_of (workflowitem_document_validated h _ _ _) = h
header_of (workflowitems_reordered h _ _) = h
header_of (subproject_created h _ _) = h
header_of (subproject_updated h _ _) = h
header_of (subproject_assigned h _ _) = h
header_of (subproject_closed h _) = h
header_of (subproject_permission_granted h _ _ _) = h
header_of (subproject_permission_revoked h _ _ _) = h
header_of (subproject_projected_budget_updated h _ _) = h
header_of (subproject_projected_budget_deleted h _ _ _) = h
header_of (project_created h _) = h
header_of (project_updated h _ _) = h
header_of (project_assigned h _ _) = h
header_of (project_closed h _) = h
header_of (project_permission_granted h _ _ _) = h
header_of (project_permission_revoked h _ _ _) = h
header_of (project_projected_budget_updated h _ _) = h
header_of (project_projected_budget_deleted h _ _ _) = h
header_of (notification_created h _ _ _ _ _ _) = h
header_of (global_permission_granted h _ _) = h
header_of (global_permission_revoked h _ _) = h
header_of (notification_marked_read h _ _) = h
header_of (group_created h _) = h
header_of (group_member_added h _ _) = h
header_of (group_member_removed h _ _) = h
header_of (group_permissions_granted h _ _ _) = h
header_of (group_permissions_revoked h _ _ _) = h
header_of (user_created h _) = h
header_of (user_enabled h _) = h
header_of (user_disabled h _) = h
header_of (user_password_changed h _ _) = h
header_of (user_permission_granted h _ _ _) = h
header_of (user_permission_revoked h _ _ _) = h
header_of (other_event _ h) = h
