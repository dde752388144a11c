-- ===== src/Notification/Recipients.antt =====
-- Whom the commands tell.
use mathlib.Core.List.{append_assoc, append-nil}
use tru_budget.Base.{
  ℕ, ◌+◌, ◌≡◌, refl, sym, ap, ◌∙◌, inl, inr, String, not, some, none, List, [], ◌∷◌, ◌++◌, arith,
  map, keep, ◌===◌, Bool-cases,
}
use tru_budget.Result.{Failure, ok, err, wrapped}
use tru_budget.Result.Inversion.{Result-cases}
use tru_budget.Joi.{Joi}
use tru_budget.Event.{BusinessEvent, notification_created}
use tru_budget.Workflowitem.EventSourcing.Mutations.{ok-injective}
use tru_budget.Notification.{
  Ctx, header_at, create_event, running, thrown, finish, notify_from, notify,
}

-- The recipient of a notification, with the event that it tells of.
abbrev pub told : BusinessEvent → List (String × BusinessEvent)
told (notification_created _ _ recipient event _ _ _) = (recipient, event) ∷ []
told event = []

abbrev pub all_told : List BusinessEvent → List (String × BusinessEvent)
all_told [] = []
all_told (event ∷ events) = told event ++ all_told events

all_told-append : (es fs : List BusinessEvent) → all_told (es ++ fs) ≡ all_told es ++ all_told fs
all_told-append [] fs = refl
all_told-append (e ∷ es) fs =
    ap (λ l. told e ++ l) (all_told-append es fs)
    ∙ sym (append_assoc (told e) (all_told es) (all_told fs))

module _ (joi : Joi) (ctx : Ctx) (message : String) (issuer : String) (event : BusinessEvent)
    (project_id : String) where
  create_event-told :
      (n : ℕ) (recipient : String) {notification : BusinessEvent}
      → create_event joi ctx n issuer recipient event project_id ≡ ok notification
      → told notification ≡ (recipient, event) ∷ []
  unfolding create_event
  create_event-told n recipient e =
      let same : notification_created (header_at ctx n issuer) (ctx.uuid n) recipient event
            (some project_id) none none
          ≡ _ =
        ground arith in
      ap told (sym same)

  -- An exception ends the loop, and an error stays one.
  thrown_fails :
      (n : ℕ) (recipients : List String) {events : List BusinessEvent}
      → finish (notify_from joi ctx message issuer event project_id n recipients thrown) ≡ ok events
      → ⊥
  unfolding notify_from
  thrown_fails n [] e = cc
  thrown_fails n (r ∷ recipients) e = thrown_fails (n + 1) recipients e

  err_fails :
      (n : ℕ) (recipients : List String) (f : Failure) {events : List BusinessEvent}
      → finish (notify_from joi ctx message issuer event project_id n recipients (running (err f)))
        ≡ ok events
      → ⊥
  unfolding notify_from
  err_fails n [] f e = cc
  err_fails n (r ∷ recipients) f e = elim (Bool-cases (r === issuer)) [
    | inl own ↦ err_fails (n + 1) recipients f (rw (own, notify_from) at e)
    | inr other ↦ elim (Result-cases (create_event joi ctx n issuer r event project_id)) [
      | inl (g, failed) ↦
          err_fails (n + 1) recipients (wrapped g (message ∷ []))
            (rw (other, failed, notify_from) at e)
      | inr (notification, created) ↦
          thrown_fails (n + 1) recipients (rw (other, created, notify_from) at e)
    ]
  ]

  abbrev pub to_tell : List String → List (String × BusinessEvent)
  to_tell recipients = map (λ (r : String). (r, event)) (keep (λ r. not (r === issuer)) recipients)

  notify_from-told :
      (n : ℕ) (recipients : List String) (so_far : List BusinessEvent) {events : List BusinessEvent}
      → finish
          (notify_from joi ctx message issuer event project_id n recipients (running (ok so_far)))
        ≡ ok events
      → all_told events ≡ all_told so_far ++ to_tell recipients
  unfolding notify_from
  notify_from-told n [] so_far e =
      ap all_told (sym (ok-injective e)) ∙ sym (append-nil (all_told so_far))
  notify_from-told n (r ∷ recipients) so_far e = elim (Bool-cases (r === issuer)) [
    | inl own ↦ rw own (notify_from-told (n + 1) recipients so_far (rw (own, notify_from) at e))
    | inr other ↦ elim (Result-cases (create_event joi ctx n issuer r event project_id)) [
      | inl (g, failed) ↦ absurd (
          err_fails (n + 1) recipients (wrapped g (message ∷ []))
            (rw (other, failed, notify_from) at e))
      | inr (notification, created) ↦ rw other (
          notify_from-told (n + 1) recipients (so_far ++ notification ∷ [])
            (rw (other, created, notify_from) at e)
          ∙ ap (λ l. l ++ to_tell recipients)
              (all_told-append so_far (notification ∷ [])
                ∙ ap (λ l. all_told so_far ++ (l ++ [])) (create_event-told n r created))
          ∙ append_assoc (all_told so_far) ((r, event) ∷ []) (to_tell recipients))
    ]
  ]

  -- Where the notifications can be created, they tell every recipient but the issuer of the event,
  -- in the order of the recipients, each as often as it is listed, and nobody else.
  pub notify-told :
      (recipients : List String) {events : List BusinessEvent}
      → notify joi ctx message issuer event project_id recipients ≡ ok events
      → all_told events
        ≡ map (λ (r : String). (r, event)) (keep (λ r. not (r === issuer)) recipients)
  unfolding notify
  notify-told recipients e = notify_from-told 1 recipients [] e
