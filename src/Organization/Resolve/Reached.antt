-- ===== src/Organization/Resolve/Reached.antt =====
-- What a call of `resolveUsers`, api/src/service/domain/organization/group_query.ts, has done when it
-- is back: it has met all that it added to the set, and their members.
use tru_budget.Base.{
  ◌≡◌, refl, ap, inl, inr, ◌⊎◌, String, true, false, none, some, List, [], ◌∷◌, ◌===◌, ===_self,
  ===_eq, ===_cases, includes, arith, Bool-cases,
}
use tru_budget.Result.{Result, ok, err}
use tru_budget.Organization.Resolve.{Directory, Resolution, unique, unique_from}

-- An identity is reached from another through groups and their members.
pub data Reaches (directory : Directory) (identity : String) : String → Type 0 where
  itself : Reaches directory identity identity
  member :
      (group : String) (members : List String) (x : String)
      → Reaches directory identity group
      → directory.get_group group ≡ some members
      → includes members x ≡ true
      → Reaches directory identity x

pub Reaches-trans :
    (directory : Directory) (a b c : String)
    → Reaches directory a b
    → Reaches directory b c
    → Reaches directory a c
Reaches-trans directory a b c p itself = p
Reaches-trans directory a b c p (member group members x q known there) =
    member group members c (Reaches-trans directory a b group p q) known there

abbrev pub Within : List String → List String → Type 0
Within xs ys = (x : String) → includes xs x ≡ true → includes ys x ≡ true

pub Within-cons : (x : String) (xs : List String) → Within xs (x ∷ xs)
Within-cons x xs y h = ground arith

includes-unique_from :
    (seen xs : List String) (u : String)
    → includes seen u ≡ false
    → includes (unique_from seen xs) u ≡ includes xs u
includes-unique_from seen [] u new = refl
includes-unique_from seen (x ∷ xs) u new = elim (Bool-cases (includes seen x)) [
  | inl met ↦
      let other : (x === u) ≡ false = ground (arith, ===_eq x u, ap (includes seen)) in
      rw (met, other) (includes-unique_from seen xs u new)
  | inr first ↦ elim (===_cases x u) [
    | inl (_, e) ↦ rw (first, e) refl
    | inr (_, e) ↦ rw (first, e) (includes-unique_from (x ∷ seen) xs u (rw (e, new) refl))
  ]
]

-- `[...new Set(users)]` has the same users,
pub includes-unique : (xs : List String) (u : String) → includes (unique xs) u ≡ includes xs u
includes-unique xs u = includes-unique_from [] xs u refl

abbrev pub Once : List String → Type 0
Once [] = Unit
Once (x ∷ xs) = (includes xs x ≡ false) × Once xs

unique_from-new :
    (seen xs : List String) (u : String)
    → includes seen u ≡ true
    → includes (unique_from seen xs) u ≡ false
unique_from-new seen [] u met = refl
unique_from-new seen (x ∷ xs) u met = elim (Bool-cases (includes seen x)) [
  | inl old ↦ rw old (unique_from-new seen xs u met)
  | inr first ↦
      let other : (x === u) ≡ false = ground (arith, ===_eq x u, ap (includes seen)) in
      rw (first, other) (unique_from-new (x ∷ seen) xs u (rw (other, met) refl))
]

unique_from-Once : (seen xs : List String) → Once (unique_from seen xs)
unique_from-Once seen [] = tt
unique_from-Once seen (x ∷ xs) = elim (Bool-cases (includes seen x)) [
  | inl old ↦ rw old (unique_from-Once seen xs)
  | inr first ↦
      rw first
        (unique_from-new (x ∷ seen) xs x (rw (===_self x) refl), unique_from-Once (x ∷ seen) xs)
]

-- each of them once.
pub unique-Once : (xs : List String) → Once (unique xs)
unique-Once xs = unique_from-Once [] xs

module _ (directory : Directory) where
  -- An identity that is met: a group with all its members, or else one of the users.
  pub record Met (after users : List String) (x : String) : Type 0 where
    pub members : (ms : List String) → directory.get_group x ≡ some ms → Within ms after
    pub user : directory.get_group x ≡ none → includes users x ≡ true

  pub Met-grow :
      (after after' users users' : List String) (x : String)
      → Within after after'
      → Within users users'
      → Met after users x
      → Met after' users' x
  Met-grow after after' users users' x more more_users met = record {
    members = λ ms known y there. more y (met.members ms known y there);
    user = λ no_group. more_users x (met.user no_group);
  }

  abbrev pub MetBetween : List String → List String → List String → Type 0
  MetBetween set after users =
      (x : String) → includes after x ≡ true → includes set x ≡ false → Met after users x

  -- A user that is reached.
  pub record IsFound (identity u : String) : Type 0 where
    pub reached : Reaches directory identity u
    pub no_group : directory.get_group u ≡ none
    pub is_user : directory.is_user u ≡ true

  -- What is reached and neither a group nor a user.
  pub record IsLost (identity : String) : Type 0 where
    pub culprit : String
    pub reached : Reaches directory identity culprit
    pub no_group : directory.get_group culprit ≡ none
    pub no_user : directory.is_user culprit ≡ false

  -- The result of a call.
  abbrev pub Right : String → List String → Result (List String) → List String → Type 0
  Right identity set (err e) after = IsLost identity
  Right identity set (ok users) after =
      Met after users identity
      × MetBetween set after users
      × ((u : String) → includes users u ≡ true → IsFound identity u)
      × Once users

  pub record Resolved (identity : String) (set : List String) (run : Resolution) : Type 0 where
    pub result : Result (List String)
    pub after : List String
    pub returns : run ≡ some (result, after)
    pub grows : Within set after
    pub right : Right identity set result after

  -- The result of the loop over some members of a group.
  abbrev pub LoopRight :
      String → List String → List String → List String → Result (List String) → List String → Type 0
  LoopRight identity ms users set (err e) after = IsLost identity
  LoopRight identity ms users set (ok users') after =
      Within ms after
      × MetBetween set after users'
      × Within users users'
      × ((u : String) → includes users' u ≡ true → (includes users u ≡ true) ⊎ IsFound identity u)

  pub record Looped (identity : String) (ms users set : List String) (run : Resolution)
      : Type 0 where
    pub result : Result (List String)
    pub after : List String
    pub returns : run ≡ some (result, after)
    pub grows : Within set after
    pub right : LoopRight identity ms users set result after
