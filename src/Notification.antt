-- ===== src/Notification.antt =====
-- api/src/service/domain/workflow/notification_created.ts, and the loop by which the commands tell
-- the users of an identity of what happened.
pub mod Recipients
pub mod EventSourcing
pub mod MarkRead
use tru_budget.Base.{
  ℕ, ◌+◌, String, Bool, true, false, ◌&&◌, some, none, List, [], ◌∷◌, ◌++◌, ◌===◌,
}
use tru_budget.Result.{Result, ok, err, map_err, wrapped, type_error}
use tru_budget.Joi.{Joi, id_text}
use tru_budget.Event.{Header, BusinessEvent, notification_created}
use tru_budget.Event.Checks.{header_ok, business_event_ok}
use tru_budget.Event.Create.{checked}

-- A request: the source of its events, and what the clock and the generator of UUIDs return when
-- they are read for the n-th time.
pub record Ctx : Type 0 where
  pub source : String
  pub now : ℕ → String
  pub uuid : ℕ → String

abbrev pub header_at : Ctx → ℕ → String → Header
header_at ctx n publisher = record { source = ctx.source; time = ctx.now n; publisher = publisher }

module _ (joi : Joi) (ctx : Ctx) where
  -- `createEvent`, as the commands call it
  unfoldable pub create_event : ℕ → String → String → BusinessEvent → String → Result BusinessEvent
  create_event n publisher recipient event project_id =
      checked
        (header_ok joi (header_at ctx n publisher)
          && joi.string (ctx.uuid n)
          && joi.max 36 (ctx.uuid n)
          && id_text joi recipient
          && business_event_ok joi event
          && id_text joi project_id)
        (notification_created (header_at ctx n publisher) (ctx.uuid n) recipient event
          (some project_id) none none)

-- The accumulator of the `reduce`: a list or an error, or an exception that ends it.
pub data Notifications : Type 0 where
  running : Result (List BusinessEvent) → Notifications
  thrown : Notifications

-- `if (Result.isErr(notification)) return new VError(…); notifications.push(notification);`
-- where `notifications` may be the error of an earlier round, which has no `push`.
-- The commands differ in the message.
abbrev pub push : String → Result BusinessEvent → Result (List BusinessEvent) → Notifications
push message (err e) acc = running (err (wrapped e (message ∷ [])))
push message (ok notification) (ok notifications) =
    running (ok (notifications ++ notification ∷ []))
push message (ok notification) (err e) = thrown

-- The issuer doesn't receive a notification.
abbrev pub notify_round : String → Bool → Result BusinessEvent → Notifications → Notifications
notify_round message is_issuer notification thrown = thrown
notify_round message true notification (running acc) = running acc
notify_round message false notification (running acc) = push message notification acc

-- `if (Result.isErr(notifications)) return new VError(notifications, message)`
abbrev pub finish_with : String → Notifications → Result (List BusinessEvent)
finish_with message thrown = err type_error
finish_with message (running r) = map_err r (λ e. wrapped e (message ∷ []))

abbrev pub finish : Notifications → Result (List BusinessEvent)
finish = finish_with "failed to create notification events"

module _ (joi : Joi) (ctx : Ctx) (message : String) (issuer : String) (event : BusinessEvent)
    (project_id : String) where
  unfoldable pub notify_from : ℕ → List String → Notifications → Notifications
  unfolding create_event
  notify_from n [] acc = acc
  notify_from n (recipient ∷ recipients) acc = notify_from (n + 1) recipients (
      notify_round message (recipient === issuer)
        (create_event joi ctx n issuer recipient event project_id) acc)

  -- the `reduce` over the recipients, and the check of its result
  unfoldable pub notify : List String → Result (List BusinessEvent)
  unfolding notify_from
  notify recipients = finish (notify_from 1 recipients (running (ok [])))
