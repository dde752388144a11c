-- ===== src/Notification/MarkRead/Marks.antt =====
-- What marking a notification as read leads to, in
-- api/src/service/domain/workflow/notification_mark_read.ts.
use tru_budget.Base.{
  ◌≡◌, refl, ap, subst, ◌∙◌, inl, inr, String, true, false, Option, none, some, List, [], ◌∷◌, ◌++◌,
  Bool-cases, Option-cases,
}
use tru_budget.Result.{Failure, ok, err, joi_error}
use tru_budget.Dict.{Dict, lookup, insert, lookup-insert_self}
use tru_budget.Dict.Entries.{Entries, Entries-insert, Entries-lookup}
use tru_budget.Joi.{Joi}
use tru_budget.Event.{BusinessEvent, notification_created, notification_marked_read}
use tru_budget.Event.Create.{checked-eq-ok}
use tru_budget.Notification.{Ctx, header_at}
use tru_budget.Notification.EventSourcing.{
  Notification, schema, validate, answered, settled, fresh, handle_create, apply_read, apply,
  source_from, source_notifications,
}
use tru_budget.Notification.MarkRead.{create_event, mark_read}

module _ (joi : Joi) where
  abbrev IsKept : String → Notification → Type 0
  IsKept id n = (n.id ≡ id) × (schema joi n ≡ true)

  -- Each notification is kept under its own ID and passes the schema.
  abbrev pub IsSourced : Dict Notification → Type 0
  IsSourced = Entries IsKept

  valid-eq-ok : (n : Notification) → schema joi n ≡ true → validate joi n ≡ ok n
  unfolding validate
  valid-eq-ok n passes = ap (λ b. answered joi b n) passes

  invalid-eq-err : (n : Notification) → schema joi n ≡ false → validate joi n ≡ err joi_error
  unfolding validate
  invalid-eq-err n fails = ap (λ b. answered joi b n) fails

  settled-IsSourced :
      (id : String) (n : Notification) (m : Dict Notification) (errors : List Failure)
      → n.id ≡ id
      → IsSourced m
      → IsSourced (settled joi id (validate joi n) (m, errors)).0
  settled-IsSourced id n m errors own h = elim (Bool-cases (schema joi n)) [
    | inl passes ↦ rw (valid-eq-ok n passes) (Entries-insert IsKept id n m (own, passes) h)
    | inr fails ↦ rw (invalid-eq-err n fails) h
  ]

  read_keeps : (n : Notification) → schema joi (record n { is_read = true }) ≡ schema joi n
  unfolding schema
  read_keeps n = refl

  handle_create-IsSourced :
      (known : Option Notification) (n : Notification) (m : Dict Notification)
      (errors : List Failure)
      → IsSourced m
      → IsSourced (handle_create joi known n (m, errors)).0
  handle_create-IsSourced (some old) n m errors h = h
  handle_create-IsSourced none n m errors h = settled-IsSourced n.id n m errors refl h

  apply_read-IsSourced :
      (id : String) (m : Dict Notification) (errors : List Failure)
      → IsSourced m
      → IsSourced (apply_read joi id (lookup id m) (m, errors)).0
  apply_read-IsSourced id m errors h = elim (Option-cases (lookup id m)) [
    | inl unknown ↦ rw unknown h
    | inr (n, found) ↦ rw found (
        settled-IsSourced id (record n { is_read = true }) m errors
          (Entries-lookup IsKept id n m h found).0 h)
  ]

  apply-IsSourced :
      (event : BusinessEvent) (m : Dict Notification) (errors : List Failure)
      → IsSourced m
      → IsSourced (apply joi event (m, errors)).0
  unfolding apply
  apply-IsSourced (notification_created header id recipient event p s w) m errors h =
      handle_create-IsSourced (lookup id m) (fresh joi header id recipient event p s w) m errors h
  apply-IsSourced (notification_marked_read header id recipient) m errors h =
      apply_read-IsSourced id m errors h
  apply-IsSourced event m errors h = h

  source_from-IsSourced :
      (events : List BusinessEvent) (m : Dict Notification) (errors : List Failure)
      → IsSourced m
      → IsSourced (source_from joi events (m, errors)).0
  unfolding source_from
  source_from-IsSourced [] m errors h = h
  source_from-IsSourced (event ∷ events) m errors h =
      source_from-IsSourced events _ _ (apply-IsSourced event m errors h)

  source_from-append :
      (es fs : List BusinessEvent) (state : Dict Notification × List Failure)
      → source_from joi (es ++ fs) state ≡ source_from joi fs (source_from joi es state)
  unfolding source_from
  source_from-append [] fs state = refl
  source_from-append (e ∷ es) fs state = source_from-append es fs (apply joi e state)

  -- A known notification can always be marked.
  read_applies :
      (events : List BusinessEvent) (m : Dict Notification) (id : String) (n : Notification)
      (event : BusinessEvent)
      → source_notifications joi events ≡ (m, [])
      → lookup id m ≡ some n
      → ((errors : List Failure)
          → apply joi event (m, errors) ≡ apply_read joi id (lookup id m) (m, errors))
      → source_notifications joi (events ++ event ∷ [])
        ≡ (insert id (record n { is_read = true }) m, [])
  unfolding source_notifications source_from
  read_applies events m id n event sourced found marks =
      let passes : schema joi (record n { is_read = true }) ≡ true =
        read_keeps n
        ∙ (Entries-lookup IsKept id n m
            (subst (λ s. IsSourced s.0) sourced (source_from-IsSourced events [] [] tt)) found).1 in
      source_from-append events (event ∷ []) ([], [])
      ∙ ap (λ s. source_from joi (event ∷ []) s) sourced
      ∙ marks []
      ∙ rw (found, valid-eq-ok _ passes) refl

  created :
      (ctx : Ctx) (user id recipient : String) {event : BusinessEvent}
      → create_event joi ctx user id recipient ≡ ok event
      → event ≡ notification_marked_read (header_at ctx 0 user) id recipient
  unfolding create_event
  created ctx user id recipient e = (checked-eq-ok _ _ e).1

  -- Where the user's events are without errors and the event passes its schema, marking a notification
  -- that is not read yet returns the event; with the event, the notification is read, all else is as it
  -- was, there are no errors, and marking it again returns nothing.
  pub mark_read-Marks :
      (ctx : Ctx) (user id : String) (events : List BusinessEvent) (m : Dict Notification)
      (n : Notification) (event : BusinessEvent)
      → source_notifications joi events ≡ (m, [])
      → lookup id m ≡ some n
      → n.is_read ≡ false
      → create_event joi ctx user id n.recipient ≡ ok event
      → (mark_read joi ctx user id (ok events) ≡ ok (event ∷ []))
        × (source_notifications joi (events ++ event ∷ [])
            ≡ (insert id (record n { is_read = true }) m, []))
        × (mark_read joi ctx user id (ok (events ++ event ∷ [])) ≡ ok [])
  unfolding mark_read apply
  mark_read-Marks ctx user id events m n event sourced found unread valid =
      let shape = created ctx user id n.recipient valid in
      let after : source_notifications joi (events ++ event ∷ [])
          ≡ (insert id (record n { is_read = true }) m, []) =
        read_applies events m id n event sourced found (λ errors. rw shape refl) in
      (
        rw (sourced, found, valid, unread, after) refl,
        after,
        rw (after, lookup-insert_self id (record n { is_read = true }) m, valid) refl,
      )
