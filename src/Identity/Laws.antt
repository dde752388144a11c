-- ===== src/Identity/Laws.antt =====
-- What grants and revocations do to what a user may do.
use tru_budget.Base.{
  ◌≡◌, refl, sym, ◌&&◌, ap, ◌∙◌, inl, inr, Bool, true, ◌||◌, List, [], ◌∷◌, ◌++◌, arith, any,
  includes, ◌===◌, ===_cases, if◌then◌else◌, Bool-cases, includes-append,
}
use tru_budget.Dict.{lookup-insert}
use tru_budget.Intents.{Intent}
use tru_budget.Event.{Identity, Permissions}
use tru_budget.Identity.{ServiceUser, can_assume_identity, eligibles, collect, permits}
use tru_budget.Identity.Grants.{grant, include}

any-append {ℓ} :
    {A : Type ℓ} (p : A → Bool) (xs ys : List A) → any p (xs ++ ys) ≡ (any p xs || any p ys)
any-append p [] ys = refl
any-append p (x ∷ xs) ys = ground (arith, any-append p xs ys)

permits-single :
    (permissions : Permissions) (user : ServiceUser) (intent : Intent)
    → permits permissions user (intent ∷ [])
      ≡ any (can_assume_identity user) (eligibles permissions intent)
unfolding permits collect
permits-single permissions user intent = refl

pub eligibles-grant :
    (intent permission : Intent) (grantee : Identity) (permissions : Permissions)
    → eligibles (grant permission grantee permissions) intent ≡ (
        if permission === intent
        then include grantee (eligibles permissions permission)
        else eligibles permissions intent)
unfolding grant
eligibles-grant intent permission grantee permissions = elim (===_cases permission intent) [
  | inl (_, e) ↦ rw (lookup-insert permission intent, e)
  | inr (_, e) ↦ rw (lookup-insert permission intent, e)
]

any_of_includes :
    (f : Identity → Bool) (a : Identity) (ids : List Identity)
    → includes ids a ≡ true
    → f a ≡ true
    → any f ids ≡ true
any_of_includes f a [] h k = cc
any_of_includes f a (id ∷ ids) h k = elim (===_cases id a) [
  | inl (same, e) ↦ rw same (ground arith)
  | inr (_, e) ↦ ground (arith, any_of_includes f a ids)
]

any-include :
    (f : Identity → Bool) (grantee : Identity) (ids : List Identity)
    → any f (include grantee ids) ≡ (any f ids || f grantee)
any-include f grantee ids = elim (Bool-cases (includes ids grantee)) [
  | inl old ↦ rw old (ground (arith, any_of_includes f grantee ids old))
  | inr new ↦ rw new (ground (arith, any-append f ids (grantee ∷ [])))
]

includes-include :
    (a grantee : Identity) (ids : List Identity)
    → includes (include grantee ids) a ≡ (includes ids a || (grantee === a))
includes-include a grantee ids = elim (Bool-cases (includes ids grantee)) [
  | inl old ↦ rw old (elim (===_cases grantee a) [
    | inl (same, e) ↦ let there : includes ids a ≡ true = rw (← same) old in rw (e, there)
    | inr (_, e) ↦ rw e (ground arith)
  ])
  | inr new ↦ rw new (includes-append ids (grantee ∷ []) a ∙ ground arith)
]

-- A grant adds exactly the grantee to the named intent.
pub includes-grant :
    (a grantee : Identity) (intent permission : Intent) (permissions : Permissions)
    → includes (eligibles (grant permission grantee permissions) intent) a
      ≡ (includes (eligibles permissions intent) a || ((permission === intent) && (grantee === a)))
includes-grant a grantee intent permission permissions = elim (===_cases permission intent) [
  | inl (same, e) ↦ rw (eligibles-grant, e, same) (includes-include a grantee _)
  | inr (_, e) ↦ rw (eligibles-grant, e) (ground arith)
]

-- After a grant a user may do what it could do before, and the granted intent if it can assume the
-- grantee's identity; nothing else changes.
pub permits-grant :
    (user : ServiceUser) (intent permission : Intent) (grantee : Identity)
    (permissions : Permissions)
    → permits (grant permission grantee permissions) user (intent ∷ []) ≡ (
        permits permissions user (intent ∷ [])
        || ((permission === intent) && can_assume_identity user grantee))
permits-grant user intent permission grantee permissions =
    permits-single (grant permission grantee permissions) user intent
    ∙ step
    ∙ ap (λ b. b || ((permission === intent) && can_assume_identity user grantee))
        (sym (permits-single permissions user intent))
  where
    step :
        any (can_assume_identity user) (eligibles (grant permission grantee permissions) intent) ≡ (
          any (can_assume_identity user) (eligibles permissions intent)
          || ((permission === intent) && can_assume_identity user grantee))
    step = elim (===_cases permission intent) [
      | inl (same, e) ↦
          rw (eligibles-grant, e, same)
            (any-include (can_assume_identity user) grantee (eligibles permissions intent))
      | inr (_, e) ↦ rw (eligibles-grant, e) (ground arith)
    ]
