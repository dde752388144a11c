-- ===== src/Organization/User/EventSourcing.antt =====
-- api/src/service/domain/organization/user_eventsourcing.ts: users out of the stream of events. The
-- deep copies of the source are the values themselves.
use text.Mathlib.Text.{starts_with}
use tru_budget.Base.{String, none, some, List, [], ◌∷◌, ◌++◌, if◌then◌else◌}
use tru_budget.Result.{
  Failure, Result, ok, err, ◌>>=◌, map_err, verror, wrapped, event_sourcing_error,
}
use tru_budget.Dict.{Dict, lookup, insert}
use tru_budget.Joi.{Joi}
use tru_budget.Event.{
  BusinessEvent, user_created, user_enabled, user_disabled, user_password_changed,
  user_permission_granted, user_permission_revoked, type_of,
}
use tru_budget.Organization.User.{UserRecord, UserTraceEvent, validate}
use tru_budget.Organization.User.Events.{
  create_from, mutate_enabled, mutate_disabled, mutate_password_changed, mutate_permission_granted,
  mutate_permission_revoked,
}

abbrev pub new_trace_event : UserRecord → BusinessEvent → UserTraceEvent
new_trace_event u event = record {
  entity_id = u.id;
  business_event = event;
  display_name = u.display_name;
}

-- `getUserId`
unfoldable pub get_user_id : BusinessEvent → Result String
get_user_id (user_password_changed _ user_id _) = ok user_id
get_user_id (user_enabled _ user_id) = ok user_id
get_user_id (user_disabled _ user_id) = ok user_id
get_user_id (user_permission_granted _ user_id _ _) = ok user_id
get_user_id (user_permission_revoked _ user_id _ _) = ok user_id
get_user_id event = err (verror ("cannot find user ID in event of type " ∷ type_of event ∷ []))

-- `getEventModule`, with the event given to the module's `mutate`
unfoldable pub get_event_module : BusinessEvent → Result (UserRecord → Result UserRecord)
get_event_module (user_password_changed _ _ password_hash) =
    ok (mutate_password_changed password_hash)
get_event_module (user_permission_granted _ _ permission grantee) =
    ok (mutate_permission_granted permission grantee)
get_event_module (user_permission_revoked _ _ permission revokee) =
    ok (mutate_permission_revoked permission revokee)
get_event_module (user_enabled _ _) = ok mutate_enabled
get_event_module (user_disabled _ _) = ok mutate_disabled
get_event_module event = err (verror ("unknown user event " ∷ type_of event ∷ []))

-- `get`
unfoldable pub get_user : Dict UserRecord → String → Result UserRecord
get_user users id = elim (lookup id users) [
  | none ↦ err (verror ("user " ∷ id ∷ " not yet initialized" ∷ []))
  | some u ↦ ok u
]

module _ (joi : Joi) where
  -- `newUserFromEvent`
  unfoldable pub new_user_from_event : UserRecord → BusinessEvent → Result UserRecord
  new_user_from_event u event = do
    mutate ← get_event_module event
    copy ← map_err (mutate (record u { log = [] })) event_sourcing_error
    valid ← map_err (validate joi copy) event_sourcing_error
    ok (record valid { log = u.log })

  -- the branch of `sourceEvent` for events without a user's ID
  unfoldable pub source_creation : BusinessEvent → Result UserRecord
  source_creation (user_created header user) =
      map_err (create_from joi header user)
        (λ e. wrapped e ("could not create user from event" ∷ []))
  source_creation event = err (
      verror (
        "event "
        ∷ type_of event
        ∷ " is not of type \"user_created\" but also does not include a user ID"
        ∷ []))

  -- `sourceEvent`
  unfoldable pub source_event : BusinessEvent → Dict UserRecord → Result UserRecord
  source_event event users = elim (get_user_id event) [
    | err _ ↦ source_creation event
    | ok id ↦ do
      u ←
          map_err (get_user users id) (λ _.
            verror ("user ID " ∷ id ∷ " found in event " ∷ type_of event ∷ " is invalid" ∷ []))
      new_user_from_event u event
  ]

  -- `user.log.push(newTraceEvent(user, event)); users.set(user.id, user)`
  abbrev pub store : BusinessEvent → UserRecord → Dict UserRecord → Dict UserRecord
  store event u users = insert u.id (record u { log = u.log ++ new_trace_event u event ∷ [] }) users

  abbrev pub recorded :
      BusinessEvent
      → Result UserRecord
      → Dict UserRecord × List Failure
      → Dict UserRecord × List Failure
  recorded event (err e) (users, errors) = (users, errors ++ e ∷ [])
  recorded event (ok u) (users, errors) = (store event u users, errors)

  -- the body of the loop of `sourceUserRecords`
  unfoldable pub source_step :
      BusinessEvent → Dict UserRecord × List Failure → Dict UserRecord × List Failure
  source_step event state =
      if starts_with (type_of event) "user_"
      then recorded event (source_event event state.0) state
      else state

  unfoldable pub source_from :
      List BusinessEvent → Dict UserRecord × List Failure → Dict UserRecord × List Failure
  source_from [] state = state
  source_from (event ∷ events) state = source_from events (source_step event state)

  -- `sourceUserRecords`; the map from which the values are returned is kept, too.
  unfoldable pub source_user_records :
      List BusinessEvent → Dict UserRecord → Dict UserRecord × List Failure
  source_user_records events origin = source_from events (origin, [])
