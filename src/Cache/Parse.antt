-- ===== src/Cache/Parse.antt =====
-- `parseBusinessEvents` of api/src/service/cache2.ts. The schemas that each event's `validate` gives
-- to Joi, and the functions that the parser map inherits as an object, are a parameter.
use tru_budget.Base.{
  String, Bool, true, false, Option, none, some, List, [], ◌∷◌, ◌++◌, ◌||◌, includes, if◌then◌else◌,
}
use tru_budget.Result.{Result, ok, err}
use tru_budget.Event.{BusinessEvent}

-- `item.data.json`: the fields that are read before an event is parsed, an absent `intent` as the
-- empty text, and the whole as its text.
pub record Json : Type 0 where
  pub intent : String
  pub type : Option String
  pub text : String

-- an `Item` of liststreamitems.ts; no `data.json` is `none`
pub record Item : Type 0 where
  pub txid : String
  pub json : Option Json

-- the keys of `EVENT_PARSER_MAP`
abbrev pub event_parser_map : List String
event_parser_map =
    "document_uploaded" ∷ "secret_published" ∷ "storage_service_url_published"
    ∷ "global_permission_granted" ∷ "global_permission_revoked" ∷ "group_created"
    ∷ "group_member_added" ∷ "group_member_removed" ∷ "node_registered" ∷ "node_declined"
    ∷ "notification_created" ∷ "notification_marked_read" ∷ "project_assigned" ∷ "project_closed"
    ∷ "project_created" ∷ "project_permission_granted" ∷ "project_permission_revoked"
    ∷ "project_projected_budget_deleted" ∷ "project_projected_budget_updated" ∷ "project_updated"
    ∷ "public_key_published" ∷ "public_key_updated" ∷ "subproject_assigned" ∷ "subproject_closed"
    ∷ "subproject_created" ∷ "subproject_permission_granted" ∷ "subproject_permission_revoked"
    ∷ "workflowitems_reordered" ∷ "subproject_projected_budget_deleted"
    ∷ "subproject_projected_budget_updated" ∷ "subproject_updated" ∷ "user_created"
    ∷ "user_password_changed" ∷ "user_enabled" ∷ "user_disabled" ∷ "user_permission_granted"
    ∷ "user_permission_revoked" ∷ "workflowitem_assigned" ∷ "workflowitem_closed"
    ∷ "workflowitem_created" ∷ "workflowitem_permission_granted" ∷ "workflowitem_permission_revoked"
    ∷ "workflowitem_updated" ∷ "workflowitem_document_validated" ∷ "peerinfo_saved"
    ∷ "provisioning_started" ∷ "provisioning_ended" ∷ []

pub record Parsers : Type 0 where
  -- a name that every object has, `constructor` for one
  pub is_inherited : String → Bool
  -- `EVENT_PARSER_MAP[type](event)`
  pub validate : String → Json → Result BusinessEvent

-- a text is falsy where it is empty
abbrev pub is_empty : String → Bool
is_empty String.[] = true
is_empty (String.◌∷◌ c s) = false

module _ (parsers : Parsers) where
  -- the choice of the parser by the event's type
  abbrev pub parse_type : Json → Option String → Option (Result BusinessEvent)
  parse_type event none = none
  parse_type event (some type) =
      if includes event_parser_map type || parsers.is_inherited type
      then some (parsers.validate type event)
      else none

  -- the function that is mapped over the items; `none` is the `undefined` that is filtered out
  abbrev pub parse_item : Option Json → Option (Result BusinessEvent)
  parse_item none = none
  parse_item (some event) = if is_empty event.intent then parse_type event event.type else none

  abbrev pub defined : Option (Result BusinessEvent) → List (Result BusinessEvent)
  defined none = []
  defined (some parsed) = parsed ∷ []

  -- `parseBusinessEvents`
  unfoldable pub parse_business_events : List Item → List (Result BusinessEvent)
  parse_business_events [] = []
  parse_business_events (item ∷ items) =
      defined (parse_item item.json) ++ parse_business_events items

-- `.filter(Result.isOk)`
unfoldable pub filter_ok : List (Result BusinessEvent) → List BusinessEvent
filter_ok [] = []
filter_ok (ok event ∷ results) = event ∷ filter_ok results
filter_ok (err _ ∷ results) = filter_ok results
