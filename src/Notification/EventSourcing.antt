-- ===== src/Notification/EventSourcing.antt =====
-- api/src/service/domain/workflow/notification.ts, notification_eventsourcing.ts and
-- notification_list.ts: the notifications of a user out of the stream of events.
use tru_budget.Base.{
  String, Bool, true, false, ◌&&◌, Option, none, some, List, [], ◌∷◌, ◌++◌, ◌===◌, all, keep,
}
use tru_budget.Result.{
  Failure, Result, ok, err, map_err, ◌>>=◌, verror, wrapped, joi_error, event_sourcing_error,
}
use tru_budget.Dict.{Dict, lookup, insert, values}
use tru_budget.Joi.{Joi, id_text, if_given}
use tru_budget.Event.{Header, BusinessEvent, notification_created, notification_marked_read}
use tru_budget.Event.Checks.{business_event_ok}

pub record NotificationTraceEvent : Type 0 where
  pub entity_id : String
  pub business_event : BusinessEvent

pub record Notification : Type 0 where
  pub id : String
  pub created_at : String
  pub recipient : String
  pub is_read : Bool
  pub business_event : BusinessEvent
  pub project_id : Option String
  pub subproject_id : Option String
  pub workflowitem_id : Option String
  pub log : List NotificationTraceEvent

module _ (joi : Joi) where
  -- `notificationTraceEventSchema`
  unfoldable pub trace_event_ok : NotificationTraceEvent → Bool
  trace_event_ok e = joi.string e.entity_id && business_event_ok joi e.business_event

  unfoldable pub schema : Notification → Bool
  schema n =
      joi.string n.id
      && joi.max 36 n.id
      && joi.iso_date n.created_at
      && id_text joi n.recipient
      && if_given (id_text joi) n.project_id
      && if_given (id_text joi) n.subproject_id
      && if_given (id_text joi) n.workflowitem_id
      && all trace_event_ok n.log

  -- `!error ? value : error`
  abbrev pub answered : Bool → Notification → Result Notification
  answered true n = ok n
  answered false n = err joi_error

  unfoldable pub validate : Notification → Result Notification
  validate n = answered (schema n) n

  -- the end of both branches: the errors, or the notification in the map
  abbrev pub settled :
      String
      → Result Notification
      → Dict Notification × List Failure
      → Dict Notification × List Failure
  settled id (err e) (notifications, errors) =
      (notifications, errors ++ event_sourcing_error e ∷ [])
  settled id (ok n) (notifications, errors) = (insert id n notifications, errors)

  abbrev pub refused : String → Dict Notification × List Failure → Dict Notification × List Failure
  refused message (notifications, errors) =
      (notifications, errors ++ event_sourcing_error (verror (message ∷ [])) ∷ [])

  abbrev pub fresh :
      Header
      → String
      → String
      → BusinessEvent
      → Option String
      → Option String
      → Option String
      → Notification
  fresh header id recipient event project_id subproject_id workflowitem_id = record {
    id = id;
    created_at = header.time;
    recipient = recipient;
    is_read = false;
    business_event = event;
    project_id = project_id;
    subproject_id = subproject_id;
    workflowitem_id = workflowitem_id;
    log = record { entity_id = id; business_event = event } ∷ [];
  }

  -- `handleCreate`, by the notification that has the ID already
  abbrev pub handle_create :
      Option Notification
      → Notification
      → Dict Notification × List Failure
      → Dict Notification × List Failure
  handle_create (some _) n state = refused "notification already exists" state
  handle_create none n state = settled n.id (validate n) state

  -- `applyRead`
  abbrev pub apply_read :
      String
      → Option Notification
      → Dict Notification × List Failure
      → Dict Notification × List Failure
  apply_read id none state = refused "notification not found" state
  apply_read id (some n) state = settled id (validate (record n { is_read = true })) state

  -- `apply`
  unfoldable pub apply :
      BusinessEvent → Dict Notification × List Failure → Dict Notification × List Failure
  apply (notification_created header id recipient event project_id subproject_id workflowitem_id)
        state =
      handle_create (lookup id state.0)
        (fresh header id recipient event project_id subproject_id workflowitem_id) state
  apply (notification_marked_read header id recipient) state =
      apply_read id (lookup id state.0) state
  apply event state = state

  unfoldable pub source_from :
      List BusinessEvent → Dict Notification × List Failure → Dict Notification × List Failure
  source_from [] state = state
  source_from (event ∷ events) state = source_from events (apply event state)

  -- `sourceNotifications`
  unfoldable pub source_notifications : List BusinessEvent → Dict Notification × List Failure
  source_notifications events = source_from events ([], [])

  -- `getUserNotifications`, with what the repository returns
  unfoldable pub get_user_notifications :
      String → Result (List BusinessEvent) → Result (List Notification)
  get_user_notifications user found = do
    events ← map_err found (λ e. wrapped e ("fetch notification events failed" ∷ []))
    ok (keep (λ n. n.recipient === user) (values (source_notifications events).0))
