-- ===== src/Tests/Grouping.antt =====
-- Users, groups, global permissions and notifications at sample data.
use tru_budget.Base.{
  ◌≡◌, refl, ◌||◌, true, false, some, none, String, List, [], ◌∷◌, ◌++◌, ◌===◌, if◌then◌else◌,
  includes,
}
use tru_budget.Result.{Result, ok}
use tru_budget.Dict.{Dict, lookup, insert}
use tru_budget.Event.{
  BusinessEvent, group_created, group_member_added, group_member_removed, global_permission_granted,
  global_permission_revoked, notification_created, notification_marked_read, project_closed,
}
use tru_budget.Organization.Group.{Group, schema, validate, trace_event_ok}
use tru_budget.Organization.Group.EventSourcing.{
  initial_group, with_members, apply, source_from, source_groups,
}
use tru_budget.Organization.Group.RoundTrip.{logged, source_groups-RoundTrip}
use tru_budget.Organization.Resolve.{Directory}
use tru_budget.Notification.EventSourcing.{Notification, fresh, source_notifications}
use tru_budget.Notification.EventSourcing
use tru_budget.Notification.MarkRead.{create_event, mark_read}
use tru_budget.Notification.MarkRead.Marks.{mark_read-Marks}
use tru_budget.GlobalPermissions.{identities_authorized_for, source_global_permissions}
use tru_budget.GlobalPermissions.Last.{last_word, identities_authorized_for_last}
use tru_budget.Tests.{joi, ctx, header}

-- Two groups that contain each other.
abbrev directory : Directory
directory = record {
  get_group = λ id.
      if id === "a"
      then some ("b" ∷ "tom" ∷ [])
      else if id === "b"
      then some ("a" ∷ "mia" ∷ "tom" ∷ [])
      else none;
  is_user = λ id. (id === "tom") || (id === "mia");
}

abbrev universe : List String
universe = "a" ∷ "b" ∷ "tom" ∷ "mia" ∷ []

abbrev group : Group
group = initial_group header (record {
  id = "g";
  display_name = "Reviewers";
  description = "";
  members = "tom" ∷ [];
  permissions = [];
  additional_data = [];
})

abbrev group_events : List BusinessEvent
group_events =
    group_created header (record {
      id = "g";
      display_name = "Reviewers";
      description = "";
      members = "tom" ∷ [];
      permissions = [];
      additional_data = [];
    })
    ∷ []

abbrev known_group : Group
known_group =
    logged "g"
      (group_created header (record {
        id = "g";
        display_name = "Reviewers";
        description = "";
        members = "tom" ∷ [];
        permissions = [];
        additional_data = [];
      }))
      group

group_is_known : lookup "g" (source_groups joi group_events).0 ≡ some known_group
unfolding source_groups source_from apply validate schema trace_event_ok
group_is_known = refl

group_stays_valid :
    (schema joi (with_members known_group ("mia" ∷ "ann" ∷ [])) ≡ true)
    × (schema joi (logged "g" (group_member_added header "g" ("mia" ∷ "ann" ∷ [])) known_group)
        ≡ true)
unfolding schema trace_event_ok
group_stays_valid = (refl, refl)

source_groups-RoundTrip_example :
    let add = group_member_added header "g" ("mia" ∷ "ann" ∷ []) in
    let take_away = group_member_removed header "g" ("mia" ∷ "ann" ∷ []) in
    let after = source_groups joi (group_events ++ add ∷ take_away ∷ []) in
    (lookup "g" after.0 ≡ some (logged "g" take_away (logged "g" add known_group)))
    × (after.1 ≡ (source_groups joi group_events).1)
source_groups-RoundTrip_example =
    source_groups-RoundTrip joi group_events header header "g" "mia" ("ann" ∷ []) known_group
      group_is_known (refl, (refl, tt)) group_stays_valid.0 group_stays_valid.1

abbrev changes : List BusinessEvent
changes =
    global_permission_granted header "global.createUser" "tom"
    ∷ global_permission_granted header "global.createUser" "mia"
    ∷ global_permission_revoked header "global.createUser" "tom"
    ∷ []

identities_authorized_for_last_example :
    includes
      (identities_authorized_for (source_global_permissions joi changes).0 "global.createUser")
      "mia"
    ≡ last_word "global.createUser" "mia" changes false
identities_authorized_for_last_example =
    identities_authorized_for_last joi "global.createUser" "mia" changes

abbrev told : String → BusinessEvent
told id = notification_created header id "mia" (project_closed header "p") (some "p") none none

abbrev notification : String → Notification
notification id = fresh joi header id "mia" (project_closed header "p") (some "p") none none

abbrev notifications : Dict Notification
notifications = ("n1", notification "n1") ∷ ("n2", notification "n2") ∷ []

notifications_known : source_notifications joi (told "n1" ∷ told "n2" ∷ []) ≡ (notifications, [])
unfolding source_notifications EventSourcing.source_from EventSourcing.apply EventSourcing.validate
    EventSourcing.schema EventSourcing.trace_event_ok
notifications_known = refl

abbrev marking : BusinessEvent
marking =
    notification_marked_read (record header { source = "api"; time = "2023-05-01" }) "n2" "mia"

marking_valid : create_event joi ctx "mia" "n2" "mia" ≡ ok marking
unfolding create_event
marking_valid = refl

mark_read-Marks_example :
    (mark_read joi ctx "mia" "n2" (ok (told "n1" ∷ told "n2" ∷ [])) ≡ ok (marking ∷ []))
    × (source_notifications joi (told "n1" ∷ told "n2" ∷ marking ∷ [])
        ≡ (insert "n2" (record (notification "n2") { is_read = true }) notifications, []))
    × (mark_read joi ctx "mia" "n2" (ok (told "n1" ∷ told "n2" ∷ marking ∷ [])) ≡ ok [])
mark_read-Marks_example =
    mark_read-Marks joi ctx "mia" "n2" (told "n1" ∷ told "n2" ∷ []) notifications
      (notification "n2") marking notifications_known refl refl marking_valid
