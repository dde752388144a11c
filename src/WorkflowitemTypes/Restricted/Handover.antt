-- ===== src/WorkflowitemTypes/Restricted/Handover.antt =====
-- The permissions after the events of a handover.
use tru_budget.Base.{
  ℕ, ◌+◌, ◌≡◌, refl, sym, ap, ◌∙◌, ◌⊎◌, inl, inr, Bool, true, false, not, ◌&&◌, ◌||◌, List, [], ◌∷◌,
  ◌++◌, arith, any, includes, ◌===◌, if◌then◌else◌, All,
}
use tru_budget.Result.{Result, ok, map_err}
use tru_budget.Result.Inversion.{>>=-eq-ok, map_err-eq-ok}
use tru_budget.Joi.{Joi}
use tru_budget.Intents.{Intent, workflowitem_intents}
use tru_budget.Event.{
  Identity, Permissions, Header, WorkflowitemPlace, BusinessEvent, workflowitem_permission_granted,
  workflowitem_permission_revoked,
}
use tru_budget.Identity.{ServiceUser, eligibles}
use tru_budget.Identity.Grants.{grant, revoke}
use tru_budget.Identity.Laws.{includes-grant}
use tru_budget.Identity.Revocations.{
  HasDistinct, grant-HasDistinct, revoke-HasDistinct, includes-revoke,
}
use tru_budget.Notification.{Ctx}
use tru_budget.Workflowitem.PermissionGranted
use tru_budget.Workflowitem.PermissionRevoked
use tru_budget.Workflowitem.EventSourcing.Mutations.{ok-injective}
use tru_budget.Workflowitem.{Workflowitem}
use tru_budget.WorkflowitemTypes.Restricted.Order.{
  Revokes, names, order_revocations-All, order_revocations-any,
}
use tru_budget.WorkflowitemTypes.Restricted.{
  split_from, order_revocations, revoked_intents, grants, revocations, check_handover,
  create_permission_events,
}

-- What an event does to the permissions of its workflowitem.
unfoldable pub apply_permission : BusinessEvent → Permissions → Permissions
apply_permission (workflowitem_permission_granted _ _ intent id) permissions =
    grant intent id permissions
apply_permission (workflowitem_permission_revoked _ _ intent id) permissions =
    revoke intent id permissions
apply_permission event permissions = permissions

unfoldable pub apply_permissions : List BusinessEvent → Permissions → Permissions
unfolding apply_permission
apply_permissions [] permissions = permissions
apply_permissions (event ∷ events) permissions =
    apply_permissions events (apply_permission event permissions)

apply_permissions-append :
    (es fs : List BusinessEvent) (permissions : Permissions)
    → apply_permissions (es ++ fs) permissions
      ≡ apply_permissions fs (apply_permissions es permissions)
unfolding apply_permissions
apply_permissions-append [] fs permissions = refl
apply_permissions-append (e ∷ es) fs permissions =
    apply_permissions-append es fs (apply_permission e permissions)

PermissionGranted-eq-ok :
    (joi : Joi) (header : Header) (place : WorkflowitemPlace) (intent : Intent) (id : Identity)
    {event : BusinessEvent}
    → PermissionGranted.create_event joi header place intent id ≡ ok event
    → event ≡ workflowitem_permission_granted header place intent id
unfolding PermissionGranted.create_event
PermissionGranted-eq-ok joi header place intent id e = ground arith

PermissionRevoked-eq-ok :
    (joi : Joi) (header : Header) (place : WorkflowitemPlace) (intent : Intent) (id : Identity)
    {event : BusinessEvent}
    → PermissionRevoked.create_event joi header place intent id ≡ ok event
    → event ≡ workflowitem_permission_revoked header place intent id
unfolding PermissionRevoked.create_event
PermissionRevoked-eq-ok joi header place intent id e = ground arith

module _ (joi : Joi) (ctx : Ctx) (publisher : ServiceUser) (place : WorkflowitemPlace) where
  -- Every grant of the list reaches the assignee, and nobody else.
  includes-grants :
      (assignee a : Identity) (i : Intent) (n : ℕ) (intents : List Intent)
      (permissions : Permissions) {events : List BusinessEvent}
      → grants joi ctx publisher place assignee n intents ≡ ok events
      → includes (eligibles (apply_permissions events permissions) i) a
        ≡ (includes (eligibles permissions i) a || (includes intents i && (assignee === a)))
  unfolding grants apply_permissions
  includes-grants assignee a i n [] permissions e = rw (← ok-injective e) (ground arith)
  includes-grants assignee a i n (intent ∷ intents) permissions e =
      let (event, e0, r0) =
        >>=-eq-ok (map_err (PermissionGranted.create_event joi _ place _ _) _) _ e in
      let (rest, e1, r1) =
        >>=-eq-ok (grants joi ctx publisher place assignee (n + 1) intents) _ r0 in
      let same = PermissionGranted-eq-ok joi _ place intent assignee (map_err-eq-ok _ _ e0) in
      rw (← ok-injective r1, same, apply_permissions)
        (includes-grants assignee a i (n + 1) intents (grant intent assignee permissions) e1
          ∙ ground (arith, includes-grant a assignee i intent permissions))

  grants-HasDistinct :
      (assignee : Identity) (n : ℕ) (intents : List Intent) (permissions : Permissions)
      {events : List BusinessEvent}
      → grants joi ctx publisher place assignee n intents ≡ ok events
      → HasDistinct permissions
      → HasDistinct (apply_permissions events permissions)
  unfolding grants apply_permissions
  grants-HasDistinct assignee n [] permissions e d = rw (← ok-injective e) d
  grants-HasDistinct assignee n (intent ∷ intents) permissions e d =
      let (event, e0, r0) =
        >>=-eq-ok (map_err (PermissionGranted.create_event joi _ place _ _) _) _ e in
      let (rest, e1, r1) =
        >>=-eq-ok (grants joi ctx publisher place assignee (n + 1) intents) _ r0 in
      let same = PermissionGranted-eq-ok joi _ place intent assignee (map_err-eq-ok _ _ e0) in
      rw (← ok-injective r1, same, apply_permissions)
        (grants-HasDistinct assignee (n + 1) intents (grant intent assignee permissions) e1
          (grant-HasDistinct intent assignee permissions d))

  revocations-Revokes :
      (n : ℕ) (intents : List Intent) {events : List BusinessEvent}
      → revocations joi ctx publisher place n intents ≡ ok events
      → All (Revokes publisher.id) events
        × ((i : Intent) → any (names i) events ≡ includes intents i)
  unfolding revocations
  revocations-Revokes n [] e = rw (← ok-injective e) (tt, λ i. refl)
  revocations-Revokes n (intent ∷ intents) e =
      let (event, e0, r0) =
        >>=-eq-ok (map_err (PermissionRevoked.create_event joi _ place _ _) _) _ e in
      let (rest, e1, r1) = >>=-eq-ok (revocations joi ctx publisher place (n + 1) intents) _ r0 in
      let same = PermissionRevoked-eq-ok joi _ place intent publisher.id (map_err-eq-ok _ _ e0) in
      let (h, k) = revocations-Revokes (n + 1) intents e1 in
      rw (← ok-injective r1, same)
        (((_, _, intent, refl), h), λ i. ap (λ b. (intent === i) || b) (k i))

-- Revocations take exactly what they name from the user.
includes-revocations :
    (revokee a : Identity) (i : Intent) (events : List BusinessEvent) (permissions : Permissions)
    → All (Revokes revokee) events
    → HasDistinct permissions
    → includes (eligibles (apply_permissions events permissions) i) a
      ≡ (includes (eligibles permissions i) a && not (any (names i) events && (revokee === a)))
unfolding apply_permissions
includes-revocations revokee a i [] permissions h d = ground arith
includes-revocations revokee a i (event ∷ events) permissions ((header, place, intent, same), h) d =
    rw (same, apply_permissions)
      (includes-revocations revokee a i events (revoke intent revokee permissions) h
          (revoke-HasDistinct intent revokee permissions d)
        ∙ ground (arith, includes-revoke a revokee i intent permissions d))

no_revocations :
    (permissions : Permissions) → apply_permissions (order_revocations []) permissions ≡ permissions
unfolding apply_permissions order_revocations split_from
no_revocations permissions = refl

nothing_taken : (b c d : Bool) → b ≡ (b && not (not true && c && d))
nothing_taken b c d = ground arith

if-eq-ok :
    (own : Bool) (revoke_all : Result (List BusinessEvent)) {events : List BusinessEvent}
    → (if own then ok [] else revoke_all) ≡ ok events
    → ((own ≡ true) × (events ≡ [])) ⊎ ((own ≡ false) × (revoke_all ≡ ok events))
if-eq-ok true r e = inl (refl, sym (ok-injective e))
if-eq-ok false r e = inr (refl, e)

-- Where no identity is listed twice, the events of a successful handover give the assignee every
-- intent of the workflowitem, take from the publisher every one but "workflowitem.list" unless the
-- publisher is the assignee, and change nothing else.
pub create_permission_events-includes :
    (joi : Joi) (ctx : Ctx) (publisher : ServiceUser) (place : WorkflowitemPlace)
    (assignee : Identity) (w : Workflowitem) (a : Identity) (i : Intent)
    {events : List BusinessEvent}
    → create_permission_events joi ctx publisher place assignee w ≡ ok events
    → HasDistinct w.permissions
    → includes (eligibles (apply_permissions events w.permissions) i) a ≡ (
        (includes (eligibles w.permissions i) a
          || (includes workflowitem_intents i && (assignee === a)))
        && not
            (not (assignee === publisher.id) && includes revoked_intents i && (publisher.id === a)))
unfolding create_permission_events
create_permission_events-includes joi ctx publisher place assignee w a i e d =
    let (granted, e0, r0) =
      >>=-eq-ok (grants joi ctx publisher place assignee 0 workflowitem_intents) _ e in
    let (revoked, e1, r1) =
      >>=-eq-ok
        (if assignee === publisher.id
          then ok []
          else revocations joi ctx publisher place 8 revoked_intents)
        _ r0 in
    let (_, e2, r2) = >>=-eq-ok (check_handover joi ctx publisher place w) _ r1 in
    let after_grants =
      includes-grants joi ctx publisher place assignee a i 0 workflowitem_intents w.permissions
        e0 in
    ap (λ es. includes (eligibles (apply_permissions es w.permissions) i) a) (sym (ok-injective r2))
    ∙ ap (λ p. includes (eligibles p i) a)
        (apply_permissions-append granted (order_revocations revoked) w.permissions)
    ∙ elim (if-eq-ok (assignee === publisher.id) _ e1) [
      | inl (own, nothing) ↦
          ap
            (λ es.
              includes
                (eligibles
                  (apply_permissions (order_revocations es)
                    (apply_permissions granted w.permissions))
                  i)
                a)
            nothing
          ∙ ap (λ p. includes (eligibles p i) a) (no_revocations _)
          ∙ after_grants
          ∙ rw own (nothing_taken _ (includes revoked_intents i) (publisher.id === a))
      | inr (other, all_revoked) ↦
          let (h, k) = revocations-Revokes joi ctx publisher place 8 revoked_intents all_revoked in
          includes-revocations publisher.id a i (order_revocations revoked) _
            (order_revocations-All (Revokes publisher.id) revoked h)
            (grants-HasDistinct joi ctx publisher place assignee 0 workflowitem_intents
              w.permissions e0 d)
          ∙ rw (after_grants, order_revocations-any (names i) revoked, k i, other) refl
    ]
