-- ===== src/Organization/AuthToken.antt =====
-- `AuthToken` and `fromUserRecord` of api/src/service/domain/organization/auth_token.ts.
use tru_budget.Base.{
  ◌≡◌, refl, sym, ap, ◌∙◌, subst, inl, inr, String, Bool, false, ◌&&◌, List, [], ◌∷◌, arith, keep,
  any, includes, Bool-cases, ===_cases,
}
use tru_budget.Result.{Result, ok, ◌>>=◌, map_err, wrapped}
use tru_budget.Result.Inversion.{>>=-eq-ok, map_err-eq-ok}
use tru_budget.Intents.{Intent, global_intents}
use tru_budget.Identity.{ServiceUser, can_assume_identity}
use tru_budget.GlobalPermissions.{GlobalPermissions, identities_authorized_for, permits}
use tru_budget.Organization.User.{UserRecord}
use tru_budget.Workflowitem.EventSourcing.Mutations.{ok-injective}

pub record AuthToken : Type 0 where
  pub user_id : String
  pub display_name : String
  pub address : String
  pub groups : List String
  pub organization : String
  pub organization_address : String
  pub allowed_intents : List Intent

pub record Repository : Type 0 where
  pub get_groups_for_user : String → Result (List String)
  pub get_organization_address : String → Result String
  pub get_global_permissions : Result GlobalPermissions

-- the function that `globalIntents.filter` is given
abbrev pub is_allowed : GlobalPermissions → ServiceUser → Intent → Bool
is_allowed global_permissions user intent =
    any (can_assume_identity user) (identities_authorized_for global_permissions intent)

-- `fromUserRecord`
unfoldable pub from_user_record : UserRecord → Repository → Result AuthToken
from_user_record user repository = do
  groups ←
      map_err (repository.get_groups_for_user user.id)
        (λ e. wrapped e ("fetch groups for user " ∷ user.id ∷ " failed" ∷ []))
  organization_address ←
      map_err (repository.get_organization_address user.organization)
        (λ e. wrapped e ("get organization address failed" ∷ []))
  global_permissions ←
      map_err repository.get_global_permissions
        (λ e. wrapped e ("get global permissions failed" ∷ []))
  ok (record {
    user_id = user.id;
    display_name = user.display_name;
    address = user.address;
    groups = groups;
    organization = user.organization;
    organization_address = organization_address;
    allowed_intents =
        keep (is_allowed global_permissions (record { id = user.id; groups = groups }))
          global_intents;
  })

includes-keep :
    (p : String → Bool) (x : String) (xs : List String)
    → includes (keep p xs) x ≡ (p x && includes xs x)
includes-keep p x [] = ground arith
includes-keep p x (y ∷ ys) = elim (===_cases y x) [
  | inl (same, e) ↦ elim (Bool-cases (p y)) [
    | inl kept ↦ rw (kept, e, ap p (sym same) ∙ kept) refl
    | inr dropped ↦
        let dropped_x : p x ≡ false = ap p (sym same) ∙ dropped in
        rw (dropped, dropped_x) (includes-keep p x ys ∙ rw dropped_x refl)
  ]
  | inr (_, e) ↦ elim (Bool-cases (p y)) [
    | inl kept ↦ rw (kept, e) (includes-keep p x ys)
    | inr dropped ↦ rw (dropped, e) (includes-keep p x ys)
  ]
]

-- the user as whom the holder of a token acts
abbrev pub holder : AuthToken → ServiceUser
holder token = record { id = token.user_id; groups = token.groups }

-- A token that is made lists an intent exactly if it is a global one and the global permissions
-- permit it to the holder.
pub from_user_record-permits :
    (user : UserRecord) (repository : Repository) {token : AuthToken}
    → from_user_record user repository ≡ ok token
    → (g : GlobalPermissions) × (repository.get_global_permissions ≡ ok g)
      × ((intent : Intent)
          → includes token.allowed_intents intent
            ≡ (permits g (holder token) (intent ∷ []) && includes global_intents intent))
unfolding from_user_record permits identities_authorized_for tru_budget.Identity.permits
    tru_budget.Identity.collect
from_user_record-permits user repository {token} run =
    let (groups, _, r0) = >>=-eq-ok (map_err (repository.get_groups_for_user _) _) _ run in
    let (address, _, r1) = >>=-eq-ok (map_err (repository.get_organization_address _) _) _ r0 in
    let (g, read, r2) = >>=-eq-ok (map_err repository.get_global_permissions _) _ r1 in
    (
      g,
      map_err-eq-ok _ _ read,
      subst
          (λ (t : AuthToken).
            (intent : Intent)
            → includes t.allowed_intents intent
              ≡ (permits g (holder t) (intent ∷ []) && includes global_intents intent))
          (ok-injective r2)
          (λ intent.
            includes-keep (is_allowed g (record { id = user.id; groups = groups })) intent
              global_intents),
    )
