-- ===== src/Organization/User/Disabled.antt =====
-- What disabling a user has checked and does, in api/src/service/domain/organization/user_disable.ts.
use tru_budget.Base.{
  ◌≡◌, not-eq-true, ◌≢◌, refl, sym, ap, ◌∙◌, subst, ◌⊎◌, inl, inr, String, Bool, true, false, not,
  ◌||◌, ◌===◌, List, [], ◌∷◌, Bool-cases, ===_eq, ===_ne, if◌then◌else◌,
}
use tru_budget.Result.{ok, map_err, require}
use tru_budget.Result.Inversion.{>>=-eq-ok, map_err-eq-ok, require-eq-ok}
use tru_budget.Dict.{insert, lookup-insert_self, lookup-insert_ne}
use tru_budget.Joi.{Joi, id_text}
use tru_budget.Intents.{Intent}
use tru_budget.Event.{Permissions, BusinessEvent, user_disabled}
use tru_budget.Event.Create.{checked-eq-ok}
use tru_budget.Identity.{ServiceUser, or_nil, eligibles}
use tru_budget.Notification.{Ctx, header_at}
use tru_budget.GlobalPermissions
use tru_budget.GlobalPermissions.{GlobalPermissions}
use tru_budget.Workflowitem.EventSourcing.Mutations.{ok-injective}
use tru_budget.Organization.User.{UserRecord, schema, answered, validate}
use tru_budget.Organization.User.Events.{create_disabled, mutate_disabled}
use tru_budget.Organization.User.EventSourcing.{get_event_module, new_user_from_event}
use tru_budget.Organization.User.Assignments.{UserAssignments, has_assignments}
use tru_budget.Organization.User.Availability.{
  Repository, require_global, require_unassigned, emit_change, disable_user,
}

answered-eq-ok :
    (joi : Joi) (test : Bool) (u : UserRecord) {v : UserRecord} → answered joi test u ≡ ok v → u ≡ v
answered-eq-ok joi true u h = ok-injective h
answered-eq-ok joi false u h = cc

abbrev without_login : UserRecord → UserRecord
without_login u = record u { permissions = insert "user.authenticate" [] u.permissions }

-- What the event does to a user.
disabled_user :
    (joi : Joi) (u : UserRecord) {u' : UserRecord} (issuer user_id : String) (ctx : Ctx)
    → new_user_from_event joi u (user_disabled (header_at ctx 0 issuer) user_id) ≡ ok u'
    → u' ≡ without_login u
unfolding new_user_from_event get_event_module mutate_disabled validate
disabled_user joi u issuer user_id ctx applied =
    let (v, valid, rest) =
      >>=-eq-ok (map_err (validate joi (without_login (record u { log = [] }))) _) _ applied in
    let same = answered-eq-ok joi (schema joi _) _ (map_err-eq-ok _ _ valid) in
    sym (ok-injective rest) ∙ ap (λ (w : UserRecord). record w { log = u.log }) (sym same)

module _ (joi : Joi) (is_equal : Permissions → Permissions → Bool) (ctx : Ctx)
    (issuer : ServiceUser) (issuer_organization : String) (repository : Repository)
    (user_id : String) where
  abbrev pub disable_event : BusinessEvent
  disable_event = user_disabled (header_at ctx 0 issuer.id) user_id

  -- What the command has established when it returns events.
  pub record Disables (events : List BusinessEvent) : Type 0 where
    pub user : UserRecord
    pub found : repository.get_user user_id ≡ ok user
    pub same_organization : user.organization ≡ issuer_organization
    pub global_permissions : GlobalPermissions
    pub read : repository.get_global_permissions ≡ ok global_permissions
    pub may_disable :
        (issuer.id ≡ "root")
        ⊎ (GlobalPermissions.permits global_permissions issuer ("global.disableUser" ∷ []) ≡ true)
    pub not_self : issuer.id ≢ user.id
    pub assignments : UserAssignments
    pub assigned : repository.get_user_assignments user_id ≡ ok assignments
    pub unassigned : has_assignments assignments ≡ false
    pub result : UserRecord
    pub applies : new_user_from_event joi user disable_event ≡ ok result
    pub no_login : eligibles result.permissions "user.authenticate" ≡ []
    pub others_kept :
        (intent : Intent)
        → "user.authenticate" ≢ intent
        → eligibles result.permissions intent ≡ eligibles user.permissions intent
    -- no other field is changed, the log included
    pub rest_kept : result ≡ record user { permissions = result.permissions }
    pub emitted :
        ((is_equal user.permissions result.permissions ≡ true) × (events ≡ []))
        ⊎ ((is_equal user.permissions result.permissions ≡ false) × (events ≡ disable_event ∷ []))

  root_or_permitted :
      (permitted : Bool)
      → ((issuer.id === "root") || permitted) ≡ true
      → (issuer.id ≡ "root") ⊎ (permitted ≡ true)
  root_or_permitted permitted h = elim (Bool-cases (issuer.id === "root")) [
    | inl is_root ↦ inl (===_eq issuer.id "root" is_root)
    | inr other ↦ inr (rw other at h)
  ]

  emitted_cases :
      (same : Bool) {event : BusinessEvent} {events : List BusinessEvent}
      → (if same then [] else event ∷ []) ≡ events
      → ((same ≡ true) × (events ≡ [])) ⊎ ((same ≡ false) × (events ≡ event ∷ []))
  emitted_cases true e = inl (refl, sym e)
  emitted_cases false e = inr (refl, sym e)

  -- Disabling that succeeds found a user of the issuer's organization who is not the issuer and has
  -- no assignments, and the issuer is root or has the global permission. The event applies to the
  -- user; behind it nobody may log in as the user, and neither another permission nor another field
  -- of the user has changed. No event is returned where `isEqual` takes the permissions before and
  -- behind it for the same, and that one event where it does not.
  pub disable_user-Disables :
      {events : List BusinessEvent}
      → disable_user joi is_equal ctx issuer issuer_organization repository user_id ≡ ok events
      → Disables events
  unfolding disable_user require_unassigned emit_change create_disabled
  disable_user-Disables {events = events} run =
      let (g, e0, r0) = >>=-eq-ok (map_err repository.get_global_permissions _) _ run in
      let (event, e1, r1) =
        >>=-eq-ok (map_err (create_disabled joi (header_at ctx 0 issuer.id) user_id) _) _ r0 in
      let (_, _, r2) = >>=-eq-ok (require (id_text joi user_id) _) _ r1 in
      let (user, e3, r3) = >>=-eq-ok (map_err (repository.get_user user_id) _) _ r2 in
      let (_, e4, r4) =
        >>=-eq-ok
          (require_global joi is_equal ctx issuer issuer_organization repository
            "global.disableUser" user g)
          _ r3 in
      let (_, e5, e6) = >>=-eq-ok (require (user.organization === issuer_organization) _) _ e4 in
      let (_, e7, r5) = >>=-eq-ok (require (not (issuer.id === user.id)) _) _ r4 in
      let (_, e8, r6) =
        >>=-eq-ok
          (require_unassigned joi is_equal ctx issuer issuer_organization repository user_id) _
          r5 in
      let (assignments, e9, e10) =
        >>=-eq-ok (map_err (repository.get_user_assignments user_id) _) _ e8 in
      let (result, e11, r7) = >>=-eq-ok (map_err (new_user_from_event joi user event) _) _ r6 in
      let same : event ≡ disable_event = (checked-eq-ok _ _ (map_err-eq-ok _ _ e1)).1 in
      let applies : new_user_from_event joi user disable_event ≡ ok result =
        subst (λ e. new_user_from_event joi user e ≡ ok result) same (map_err-eq-ok _ _ e11) in
      let change = disabled_user joi user issuer.id user_id ctx applies in
      record {
        user = user;
        found = map_err-eq-ok _ _ e3;
        same_organization = ===_eq _ _ (require-eq-ok _ _ e5);
        global_permissions = g;
        read = map_err-eq-ok _ _ e0;
        may_disable = root_or_permitted _ (require-eq-ok _ _ e6);
        not_self = ===_ne issuer.id user.id (not-eq-true _ (require-eq-ok _ _ e7));
        assignments = assignments;
        assigned = map_err-eq-ok _ _ e9;
        unassigned = not-eq-true _ (require-eq-ok _ _ e10);
        result = result;
        applies = applies;
        no_login =
            ap (λ (u : UserRecord). eligibles u.permissions "user.authenticate") change
            ∙ ap or_nil (lookup-insert_self "user.authenticate" [] user.permissions);
        others_kept = λ intent other.
            ap (λ (u : UserRecord). eligibles u.permissions intent) change
            ∙ ap or_nil (lookup-insert_ne "user.authenticate" intent [] user.permissions other);
        rest_kept =
            change
            ∙ sym (ap (λ (u : UserRecord). record user { permissions = u.permissions }) change);
        emitted =
            subst
              (λ e.
                ((is_equal user.permissions result.permissions ≡ true) × (events ≡ []))
                ⊎ ((is_equal user.permissions result.permissions ≡ false) × (events ≡ e ∷ [])))
              same (emitted_cases _ (ok-injective r7));
      }
