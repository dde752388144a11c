-- ===== src/Notification/MarkRead.antt =====
-- api/src/service/domain/workflow/notification_marked_read.ts and notification_mark_read.ts: a user
-- marks a notification as read.
pub mod Marks
use tru_budget.Base.{String, Bool, true, false, ◌&&◌, Option, none, some, List, [], ◌∷◌, ◌++◌}
use tru_budget.Result.{Failure, Result, ok, err, map_err, ◌>>=◌, wrapped, not_found, unless_errors}
use tru_budget.Dict.{lookup}
use tru_budget.Joi.{Joi, id_text}
use tru_budget.Event.{BusinessEvent, notification_marked_read}
use tru_budget.Event.Checks.{header_ok}
use tru_budget.Event.Create.{checked}
use tru_budget.Notification.{Ctx, header_at}
use tru_budget.Notification.EventSourcing.{Notification, source_notifications}

module _ (joi : Joi) (ctx : Ctx) where
  unfoldable pub create_event : String → String → String → Result BusinessEvent
  create_event publisher notification_id recipient =
      checked
        (header_ok joi (header_at ctx 0 publisher)
          && joi.string notification_id
          && joi.max 36 notification_id
          && id_text joi recipient)
        (notification_marked_read (header_at ctx 0 publisher) notification_id recipient)

  abbrev pub known : String → Option Notification → Result Notification
  known id none = err (not_found "notification" id)
  known id (some n) = ok n

  -- nothing to do for one that is read already
  abbrev pub unless_read : Bool → List BusinessEvent → BusinessEvent → Result (List BusinessEvent)
  unless_read true events event = ok []
  unless_read false events event =
      unless_errors (source_notifications joi (events ++ event ∷ [])).1 (event ∷ [])

  -- `markRead`, with what the repository returns
  unfoldable pub mark_read :
      String → String → Result (List BusinessEvent) → Result (List BusinessEvent)
  mark_read user notification_id found = do
    events ← map_err found (λ e. wrapped e ("could not get notification events" ∷ []))
    notification ←
        known notification_id (lookup notification_id (source_notifications joi events).0)
    event ←
        map_err (create_event user notification_id notification.recipient)
          (λ e. wrapped e ("failed to create notification marked read event" ∷ []))
    unless_read notification.is_read events event
