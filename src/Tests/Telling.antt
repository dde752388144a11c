-- ===== src/Tests/Telling.antt =====
-- Notifications at sample data.
use tru_budget.Base.{◌≡◌, refl, not, some, none, String, List, [], ◌∷◌, map, keep, ◌===◌}
use tru_budget.Result.{ok}
use tru_budget.Event.{BusinessEvent, notification_created}
use tru_budget.Notification.{header_at, notify}
use tru_budget.Notification.Recipients.{all_told, notify-told}
use tru_budget.Tests.{joi, ctx, closing}

abbrev recipients : List String
recipients = "tom" ∷ "mia" ∷ "eva" ∷ []

abbrev notice : (recipient : String) → BusinessEvent
notice recipient =
    notification_created (header_at ctx 1 "mia") "u" recipient (closing "w1") (some "p") none none

abbrev notices : List BusinessEvent
notices = notice "tom" ∷ notice "eva" ∷ []

notifies : notify joi ctx "failed" "mia" (closing "w1") "p" recipients ≡ ok notices
unfolding notify
notifies = refl

notify-told_example :
    all_told notices
    ≡ map (λ (r : String). (r, closing "w1")) (keep (λ r. not (r === "mia")) recipients)
notify-told_example = notify-told joi ctx "failed" "mia" (closing "w1") "p" recipients notifies
