-- ===== src/Identity/Revocations.antt =====
-- What revocations do where no identity is listed twice for an intent.
use text.Mathlib.TextEquality.{eq_iff}
use tru_budget.Base.{
  ◌≡◌, refl, not, ◌&&◌, inl, inr, false, List, [], ◌∷◌, ◌++◌, arith, includes, ◌===◌, ===_cases,
  if◌then◌else◌, Bool-cases, Option-cases, includes-append,
}
use tru_budget.Dict.{lookup, lookup-insert}
use tru_budget.Intents.{Intent}
use tru_budget.Event.{Identity, Permissions}
use tru_budget.Identity.{eligibles}
use tru_budget.Identity.Grants.{grant, revoke, include, splice}
use tru_budget.Identity.Laws.{eligibles-grant}

-- No identity is listed twice for an intent.
abbrev pub Distinct : List Identity → Type 0
Distinct [] = Unit
Distinct (id ∷ ids) = (includes ids id ≡ false) × Distinct ids

abbrev pub HasDistinct : Permissions → Type 0
HasDistinct permissions = (intent : Intent) → Distinct (eligibles permissions intent)

Distinct-concat :
    (ids : List Identity) (a : Identity)
    → Distinct ids
    → includes ids a ≡ false
    → Distinct (ids ++ a ∷ [])
Distinct-concat [] a d h = (refl, tt)
Distinct-concat (id ∷ ids) a d h = (
  ground (arith, includes-append ids (a ∷ []) id, eq_iff a id, eq_iff id a),
  Distinct-concat ids a d.1 (ground arith),
)

Distinct-include :
    (grantee : Identity) (ids : List Identity) → Distinct ids → Distinct (include grantee ids)
Distinct-include grantee ids d = elim (Bool-cases (includes ids grantee)) [
  | inl old ↦ rw old d
  | inr new ↦ rw new (Distinct-concat ids grantee d new)
]

-- Without repetition a splice removes the identity and keeps every other.
pub includes-splice :
    (a revokee : Identity) (ids : List Identity)
    → Distinct ids
    → includes (splice revokee ids) a ≡ (includes ids a && not (revokee === a))
includes-splice a revokee [] d = refl
includes-splice a revokee (id ∷ ids) d = elim (===_cases id revokee) [
  | inl (same, e) ↦ elim (===_cases revokee a) [
    | inl (found, f) ↦
        let gone : includes ids a ≡ false = rw (← found, ← same) d.0 in
        rw (e, f, gone) (ground arith)
    | inr (other, f) ↦ rw (e, same, f) (ground arith)
  ]
  | inr (other, e) ↦ elim (===_cases revokee a) [
    | inl (found, f) ↦ rw (e, f) (ground (arith, eq_iff id a, includes-splice a revokee ids d.1))
    | inr (_, f) ↦ rw (e, f) (ground (arith, includes-splice a revokee ids d.1))
  ]
]

Distinct-splice :
    (revokee : Identity) (ids : List Identity) → Distinct ids → Distinct (splice revokee ids)
Distinct-splice revokee [] d = tt
Distinct-splice revokee (id ∷ ids) d = elim (===_cases id revokee) [
  | inl (_, e) ↦ rw e d.1
  | inr (_, e) ↦
      rw e (ground (arith, includes-splice id revokee ids d.1), Distinct-splice revokee ids d.1)
]

pub eligibles-revoke :
    (intent permission : Intent) (revokee : Identity) (permissions : Permissions)
    → eligibles (revoke permission revokee permissions) intent ≡ (
        if permission === intent
        then splice revokee (eligibles permissions permission)
        else eligibles permissions intent)
unfolding revoke
eligibles-revoke intent permission revokee permissions =
    elim (Option-cases (lookup permission permissions)) [
      | inl missing ↦ elim (===_cases permission intent) [
        | inl (same, e) ↦ rw (missing, revoke, e) (rw (← same) (rw missing))
        | inr (_, e) ↦ rw (missing, revoke, e)
      ]
      | inr (ids, found) ↦ elim (===_cases permission intent) [
        | inl (_, e) ↦ rw (found, revoke) (rw (lookup-insert permission intent, e))
        | inr (_, e) ↦ rw (found, revoke) (rw (lookup-insert permission intent, e))
      ]
    ]

-- A grant lists no identity twice for an intent, if none was before.
pub grant-HasDistinct :
    (permission : Intent) (grantee : Identity) (permissions : Permissions)
    → HasDistinct permissions
    → HasDistinct (grant permission grantee permissions)
grant-HasDistinct permission grantee permissions d intent = elim (===_cases permission intent) [
  | inl (_, e) ↦ rw (eligibles-grant, e) (Distinct-include grantee _ (d permission))
  | inr (_, e) ↦ rw (eligibles-grant, e) (d intent)
]

-- A revocation lists no identity twice for an intent, if none was before.
pub revoke-HasDistinct :
    (permission : Intent) (revokee : Identity) (permissions : Permissions)
    → HasDistinct permissions
    → HasDistinct (revoke permission revokee permissions)
revoke-HasDistinct permission revokee permissions d intent = elim (===_cases permission intent) [
  | inl (_, e) ↦ rw (eligibles-revoke, e) (Distinct-splice revokee _ (d permission))
  | inr (_, e) ↦ rw (eligibles-revoke, e) (d intent)
]

-- Where no identity is listed twice, a revocation removes exactly the revokee from the named
-- intent, and leaves every other identity and every other intent alone.
pub includes-revoke :
    (a revokee : Identity) (intent permission : Intent) (permissions : Permissions)
    → HasDistinct permissions
    → includes (eligibles (revoke permission revokee permissions) intent) a ≡ (
        includes (eligibles permissions intent) a
        && not ((permission === intent) && (revokee === a)))
includes-revoke a revokee intent permission permissions d = elim (===_cases permission intent) [
  | inl (same, e) ↦ rw (eligibles-revoke, e, same) (includes-splice a revokee _ (d intent))
  | inr (_, e) ↦ rw (eligibles-revoke, e) (ground arith)
]
