-- ===== src/GlobalPermissions/Last.antt =====
-- Who has a global permission after a stream of events, in
-- api/src/service/domain/workflow/global_permissions_eventsourcing.ts.
use tru_budget.Base.{
  ◌≡◌, refl, sym, ap, ◌∙◌, subst, Bool, true, false, not, ◌&&◌, ◌||◌, List, [], ◌∷◌, ◌===◌,
  includes,
}
use tru_budget.Result.{Failure}
use tru_budget.Joi.{Joi}
use tru_budget.Intents.{Intent}
use tru_budget.Event.{
  Identity, Permissions, BusinessEvent, global_permission_granted, global_permission_revoked,
}
use tru_budget.Identity.Grants.{grant, revoke}
use tru_budget.Identity.{eligibles}
use tru_budget.Identity.Laws.{includes-grant}
use tru_budget.Identity.Revocations.{
  HasDistinct, grant-HasDistinct, revoke-HasDistinct, includes-revoke,
}
use tru_budget.GlobalPermissions.{
  GlobalPermissions, identities_authorized_for, schema, noted, apply, source_from,
  source_global_permissions,
}

-- What an event says of an identity and an intent, where it says something.
abbrev pub word : Intent → Identity → BusinessEvent → Bool → Bool
word intent a (global_permission_granted _ permission grantee) before =
    before || ((permission === intent) && (grantee === a))
word intent a (global_permission_revoked _ permission revokee) before =
    before && not ((permission === intent) && (revokee === a))
word intent a event before = before

-- The last event that names both decides.
abbrev pub last_word : Intent → Identity → List BusinessEvent → Bool → Bool
last_word intent a [] before = before
last_word intent a (event ∷ events) before = last_word intent a events (word intent a event before)

module _ (joi : Joi) where
  noted-permissions :
      (test : Bool) (event : BusinessEvent) (g : GlobalPermissions) (errors : List Failure)
      → (noted joi test event (g, errors)).0.permissions ≡ g.permissions
  noted-permissions true event g errors = refl
  noted-permissions false event g errors = refl

  abbrev holds : Intent → Identity → GlobalPermissions → Bool
  holds intent a g = includes (eligibles g.permissions intent) a

  -- The permissions behind an event, whether it was an error or not.
  abbrev changed : BusinessEvent → Permissions → Permissions
  changed (global_permission_granted _ permission grantee) permissions =
      grant permission grantee permissions
  changed (global_permission_revoked _ permission revokee) permissions =
      revoke permission revokee permissions
  changed event permissions = permissions

  apply-permissions :
      (event : BusinessEvent) (g : GlobalPermissions) (errors : List Failure)
      → (apply joi event (g, errors)).0.permissions ≡ changed event g.permissions
  unfolding apply
  apply-permissions (global_permission_granted header permission grantee) g errors =
      noted-permissions (schema joi _) _ _ errors
  apply-permissions (global_permission_revoked header permission revokee) g errors =
      noted-permissions (schema joi _) _ _ errors
  apply-permissions event g errors = refl

  changed-HasDistinct :
      (event : BusinessEvent) (permissions : Permissions)
      → HasDistinct permissions
      → HasDistinct (changed event permissions)
  changed-HasDistinct (global_permission_granted header permission grantee) permissions d =
      grant-HasDistinct permission grantee permissions d
  changed-HasDistinct (global_permission_revoked header permission revokee) permissions d =
      revoke-HasDistinct permission revokee permissions d
  changed-HasDistinct event permissions d = d

  changed-word :
      (intent : Intent) (a : Identity) (event : BusinessEvent) (permissions : Permissions)
      → HasDistinct permissions
      → includes (eligibles (changed event permissions) intent) a
        ≡ word intent a event (includes (eligibles permissions intent) a)
  changed-word intent a (global_permission_granted header permission grantee) permissions d =
      includes-grant a grantee intent permission permissions
  changed-word intent a (global_permission_revoked header permission revokee) permissions d =
      includes-revoke a revokee intent permission permissions d
  changed-word intent a event permissions d = refl

  source_from-last :
      (intent : Intent) (a : Identity) (events : List BusinessEvent) (g : GlobalPermissions)
      (errors : List Failure)
      → HasDistinct g.permissions
      → holds intent a (source_from joi events (g, errors)).0
        ≡ last_word intent a events (holds intent a g)
  unfolding source_from
  source_from-last intent a [] g errors d = refl
  source_from-last intent a (event ∷ events) g errors d =
      let next = apply-permissions event g errors in
      source_from-last intent a events (apply joi event (g, errors)).0
        (apply joi event (g, errors)).1
        (subst HasDistinct (sym next) (changed-HasDistinct event g.permissions d))
      ∙ ap (last_word intent a events) (
          ap (λ p. includes (eligibles p intent) a) next
          ∙ changed-word intent a event g.permissions d)

  -- Whatever the stream of events, an identity is authorized for an intent exactly if, of the grants and
  -- revocations that name both, the last one is a grant; also where the sourcing recorded errors.
  pub identities_authorized_for_last :
      (intent : Intent) (a : Identity) (events : List BusinessEvent)
      → includes (identities_authorized_for (source_global_permissions joi events).0 intent) a
        ≡ last_word intent a events false
  unfolding source_global_permissions identities_authorized_for
  identities_authorized_for_last intent a events =
      source_from-last intent a events (record { permissions = []; log = [] }) [] (λ i. tt)
