-- ===== src/Commands/LastUser/Granters.antt =====
-- What the `revoke` commands of api/src/service/domain/workflow leave of those who may grant
-- permissions.
use tru_budget.Base.{
  ◌≡◌, ◌≢◌, refl, sym, ap, ◌∙◌, subst, inl, inr, String, Bool, true, false, not, ◌&&◌, some, List,
  [], ◌∷◌, ◌===◌, eq_===, ===_cases, Bool-cases, Option-cases,
}
use tru_budget.Result.{ok, map_err}
use tru_budget.Result.Inversion.{>>=-eq-ok, map_err-eq-ok, require-eq-ok}
use tru_budget.Dict.{lookup}
use tru_budget.Joi.{Joi}
use tru_budget.Intents.{Intent}
use tru_budget.Event.{
  Identity, Permissions, BusinessEvent, WorkflowitemPlace, workflowitem_permission_revoked,
}
use tru_budget.Event.Create.{checked-eq-ok}
use tru_budget.Identity.{ServiceUser, or_nil, eligibles}
use tru_budget.Identity.Grants.{revoke, splice}
use tru_budget.Identity.Revocations.{eligibles-revoke}
use tru_budget.Notification.{Ctx, header_at}
use tru_budget.Workflowitem.{Workflowitem}
use tru_budget.Workflowitem.PermissionRevoked
use tru_budget.Workflowitem.EventSourcing.{get_event_module, new_workflowitem_from_event}
use tru_budget.Workflowitem.EventSourcing.Keeps.{new_workflowitem_from_event-Applied}
use tru_budget.Workflowitem.EventSourcing.Mutations.{ok-injective}
use tru_budget.Commands.{require_permission}
use tru_budget.Commands.LastUser.{is_single, keep_last_user}
use tru_budget.Commands.RevokeWorkflowitemPermission.{Repository, revoke_workflowitem_permission}

-- Somebody is listed for the intent.
abbrev pub HasGranter : Intent → Permissions → Type 0
HasGranter grant_intent permissions = eligibles permissions grant_intent ≢ []

splice-some :
    (revokee : Identity) (ids : List Identity)
    → ids ≢ []
    → is_single (some ids) ≡ false
    → splice revokee ids ≢ []
splice-some revokee [] given more e = given refl
splice-some revokee (id ∷ []) given more e = cc
splice-some revokee (id ∷ id' ∷ ids) given more e = elim (Bool-cases (id === revokee)) [
  | inl same ↦ cc (rw same at e)
  | inr other ↦ cc (rw other at e)
]

single_false : (b : Bool) → not (true && b) ≡ true → b ≡ false
single_false true h = cc
single_false false h = refl

-- The check is enough: behind the revocation somebody is still listed.
pub keep_last_user-HasGranter :
    (grant_intent intent : Intent) (revokee : Identity) (permissions : Permissions) {u : Unit {0}}
    → keep_last_user grant_intent intent permissions ≡ ok u
    → HasGranter grant_intent permissions
    → HasGranter grant_intent (revoke intent revokee permissions)
unfolding keep_last_user
keep_last_user-HasGranter grant_intent intent revokee permissions passed given =
    let test = require-eq-ok _ _ passed in
    elim (===_cases intent grant_intent) [
      | inr (_, other) ↦ λ gone. given (sym (left other) ∙ gone)
      | inl (same, e) ↦ elim (Option-cases (lookup intent permissions)) [
        | inl missing ↦ absurd (given (ap (eligibles permissions) (sym same) ∙ ap or_nil missing))
        | inr (ids, found) ↦
            let back : (grant_intent === intent) ≡ true = eq_=== grant_intent intent (sym same) in
            let several : is_single (some ids) ≡ false =
              single_false _ (rw (back, found) at test) in
            let listed : ids ≢ [] =
              λ empty. given (ap (eligibles permissions) (sym same) ∙ ap or_nil found ∙ empty) in
            λ gone.
              splice-some revokee ids listed several
                (sym (ap (splice revokee) (ap or_nil found)) ∙ sym (spliced e) ∙ gone)
      ]
    ]
  where
    left :
        (intent === grant_intent) ≡ false
        → eligibles (revoke intent revokee permissions) grant_intent
          ≡ eligibles permissions grant_intent
    left other = eligibles-revoke grant_intent intent revokee permissions ∙ rw other refl

    spliced :
        (intent === grant_intent) ≡ true
        → eligibles (revoke intent revokee permissions) grant_intent
          ≡ splice revokee (eligibles permissions intent)
    spliced e = eligibles-revoke grant_intent intent revokee permissions ∙ rw e refl

module _ (joi : Joi) where
  -- What the event of a revocation does to the permissions.
  revoked-permissions :
      (ctx : Ctx) (issuer : String) (place : WorkflowitemPlace) (intent : Intent)
      (revokee : Identity) (w : Workflowitem) {event : BusinessEvent} {w' : Workflowitem}
      → PermissionRevoked.create_event joi (header_at ctx 0 issuer) place intent revokee ≡ ok event
      → new_workflowitem_from_event joi w event ≡ ok w'
      → w'.permissions ≡ revoke intent revokee w.permissions
  unfolding PermissionRevoked.create_event new_workflowitem_from_event get_event_module
      PermissionRevoked.mutate
  revoked-permissions ctx issuer place intent revokee w {w' = w'} made applied =
      let revocation =
        workflowitem_permission_revoked (header_at ctx 0 issuer) place intent revokee in
      let shape = (checked-eq-ok _ _ made).1 in
      let applied' : new_workflowitem_from_event joi w revocation ≡ ok w' =
        subst (λ e. new_workflowitem_from_event joi w e ≡ ok w') shape applied in
      let change = new_workflowitem_from_event-Applied joi w revocation applied' in
      let same_mutate : PermissionRevoked.mutate (header_at ctx 0 issuer) place intent revokee
          ≡ change.mutate =
        ok-injective change.found in
      let copied : record w { log = []; permissions = revoke intent revokee w.permissions }
          ≡ change.copy =
        ok-injective (ap (λ f. f (record w { log = [] })) same_mutate ∙ change.mutated) in
      sym (ap (λ (v : Workflowitem). v.permissions) change.result)
      ∙ sym (ap (λ (v : Workflowitem). v.permissions) copied)

  abbrev pub Kept : Workflowitem → List BusinessEvent → Type 0
  Kept w [] = Unit
  Kept w (event ∷ events) =
      (events ≡ [])
      × ((w' : Workflowitem) × (new_workflowitem_from_event joi w event ≡ ok w')
          × HasGranter "workflowitem.intent.grantPermission" w'.permissions)

  -- A revocation on a workflowitem where somebody may grant permissions, if it succeeds, returns no
  -- event, or the one event that applies to the workflowitem and behind which somebody still may.
  pub revoke_workflowitem_permission-Kept :
      (is_equal : Permissions → Permissions → Bool) (ctx : Ctx) (issuer : ServiceUser)
      (place : WorkflowitemPlace) (repository : Repository) (revokee : Identity) (intent : Intent)
      (w : Workflowitem) {events : List BusinessEvent}
      → repository.get_workflowitem place.project_id place.subproject_id place.workflowitem_id
        ≡ ok w
      → HasGranter "workflowitem.intent.grantPermission" w.permissions
      → revoke_workflowitem_permission joi is_equal ctx issuer place repository revokee intent
        ≡ ok events
      → Kept w events
  unfolding revoke_workflowitem_permission
  revoke_workflowitem_permission-Kept is_equal ctx issuer place repository revokee intent w found
        given run =
      let (event, made, rest) =
        >>=-eq-ok
          (map_err
            (PermissionRevoked.create_event joi (header_at ctx 0 issuer.id) place intent revokee) _)
          _ (rw found at run) in
      let (_, _, rest) =
        >>=-eq-ok (require_permission issuer "workflowitem.intent.revokePermission" w.permissions) _
          rest in
      let (w', applied, rest) =
        >>=-eq-ok (map_err (new_workflowitem_from_event joi w event) _) _ rest in
      let (_, last, rest) =
        >>=-eq-ok (keep_last_user "workflowitem.intent.grantPermission" intent w.permissions) _
          rest in
      let effect =
        revoked-permissions ctx issuer.id place intent revokee w (map_err-eq-ok _ _ made)
          (map_err-eq-ok _ _ applied) in
      let still =
        keep_last_user-HasGranter "workflowitem.intent.grantPermission" intent revokee w.permissions
          last given in
      elim (Bool-cases (is_equal w.permissions w'.permissions)) [
        | inl unchanged ↦ subst (Kept w) (ok-injective (rw unchanged at rest)) tt
        | inr different ↦ subst (Kept w) (ok-injective (rw different at rest)) (
          refl,
          (
            w',
            map_err-eq-ok _ _ applied,
            subst (HasGranter "workflowitem.intent.grantPermission") (sym effect) still,
          ),
        )
      ]
