-- ===== src/Organization/Resolve/Ends.antt =====
-- `resolveUsers` of api/src/service/domain/organization/group_query.ts ends, also where groups contain
-- each other, and finds the users that are reached.
use tru_budget.Base.{
  ℕ, suc, ◌≤◌, ◌<◌, ◌≡◌, refl, sym, subst, inl, inr, ◌⊎◌, String, Bool, true, false, ◌||◌, some,
  List, [], ◌∷◌, ◌++◌, ◌===◌, ===_self, ===_eq, eq_===, ===_cases, includes, includes-append,
  if◌then◌else◌, arith, Bool-cases, length,
}
use tru_budget.Result.{Result, ok, err, wrapped}
use tru_budget.Organization.Resolve.{Directory, Resolution, resolve_members}
use tru_budget.Organization.Resolve.Reached.{
  itself, member, Reaches-trans, Within, Within-cons, Met, Met-grow, IsFound, Right, Resolved,
  LoopRight, Looped,
}

-- how many of the identities are not in the set yet
abbrev pub missing : List String → List String → ℕ
missing [] set = 0
missing (x ∷ xs) set = if includes set x then missing xs set else suc (missing xs set)

missing-cons-le : (xs set : List String) (m : String) → missing xs (m ∷ set) ≤ missing xs set
missing-cons-le [] set m = omega arith
missing-cons-le (x ∷ xs) set m = ground (arith, missing-cons-le xs set m)

missing-cons-lt :
    (xs set : List String) (m : String)
    → includes xs m ≡ true
    → includes set m ≡ false
    → missing xs (m ∷ set) < missing xs set
missing-cons-lt [] set m there new = cc
missing-cons-lt (x ∷ xs) set m there new = elim (===_cases x m) [
  | inl (same, e) ↦
      let now : (m === x) ≡ true = eq_=== m x (sym same) in
      let before : includes set x ≡ false = subst (λ k. includes set k ≡ false) (sym same) new in
      rw (now, before) (omega (arith, missing-cons-le xs set m))
  | inr (ne, e) ↦
      let other : (m === x) ≡ false = ground (arith, ===_eq m x) in
      let rest = missing-cons-lt xs set m (rw e at there) new in ground (arith, other, rest)
]

missing-Within : (xs set set' : List String) → Within set set' → missing xs set' ≤ missing xs set
missing-Within [] set set' more = omega arith
missing-Within (x ∷ xs) set set' more = ground (arith, more x, missing-Within xs set set' more)

pub missing-le : (xs set : List String) → missing xs set ≤ length xs
missing-le [] set = omega arith
missing-le (x ∷ xs) set = ground (arith, missing-le xs set)

or_true : (b : Bool) → (b || true) ≡ true
or_true true = refl
or_true false = refl

cons_Within :
    (m : String) (ms after : List String)
    → includes after m ≡ true
    → Within ms after
    → Within (m ∷ ms) after
cons_Within m ms after there rest x h = elim (===_cases m x) [
  | inl (same, _) ↦ subst (λ k. includes after k ≡ true) same there
  | inr (_, e) ↦ rest x (rw e at h)
]

module _ (directory : Directory) (universe : List String) where
  -- All members of groups are among the identities of a finite list.
  abbrev pub IsClosed : Type 0
  IsClosed = (g : String) (ms : List String) → directory.get_group g ≡ some ms → Within ms universe

  module _ (closed : IsClosed) (call : String → List String → Resolution) (bound : ℕ)
      (good : (m : String) (set : List String)
        → missing universe set < bound
        → Resolved directory m set (call m set)) where
    abbrev loop : List String → List String → List String → Resolution
    loop ms users set = resolve_members call ms users set

    module _ (identity : String) (group : List String)
        (known : directory.get_group identity ≡ some group) where
      IsFound-member :
          (m : String)
          → includes group m ≡ true
          → (u : String) → IsFound directory m u
          → IsFound directory identity u
      IsFound-member m there u found = record {
        reached =
            Reaches-trans directory identity m u (member identity group m itself known there)
              found.reached;
        no_group = found.no_group;
        is_user = found.is_user;
      }

      -- a member that was met before
      skipped :
          (m : String) (ms users set : List String) (r : Result (List String)) (after : List String)
          → includes after m ≡ true
          → LoopRight directory identity ms users set r after
          → LoopRight directory identity (m ∷ ms) users set r after
      skipped m ms users set (err e) after old h = h
      skipped m ms users set (ok users') after old h =
          (cons_Within m ms after old h.0, h.1, h.2, h.3)

      -- a member that is resolved now, and then the rest
      module _ (m : String) (there : includes group m ≡ true) (ms users set after : List String)
          (resolved : List String) (grows : Within (m ∷ set) after)
          (right : Right directory m (m ∷ set) (ok resolved) after) where
        split :
            (u : String)
            → includes (users ++ resolved) u ≡ true
            → (includes users u ≡ true) ⊎ (includes resolved u ≡ true)
        split u h = ground (arith, includes-append users resolved u)

        joined :
            (r : Result (List String)) (after' : List String)
            → Within after after'
            → LoopRight directory identity ms (users ++ resolved) after r after'
            → LoopRight directory identity (m ∷ ms) users set r after'
        joined (err e) after' more h = h
        joined (ok users') after' more h =
            let from_resolved : Within resolved users' = λ u k.
              h.2 u (rw (includes-append users resolved u, k) (or_true (includes users u))) in
            (
              cons_Within m ms after' (more m (grows m (rw (===_self m) refl))) h.0,
              λ x now before. elim (Bool-cases (includes after x)) [
                | inr later ↦ h.1 x now later
                | inl met ↦
                    Met-grow directory after after' resolved users' x more from_resolved
                      (elim (===_cases m x) [
                        | inl (same, _) ↦ subst (Met directory after resolved) same right.0
                        | inr (_, other) ↦ right.1 x met (rw (other, before) refl)
                      ])
              ],
              λ u k. h.2 u (rw (includes-append users resolved u, k) refl),
              λ u k. elim (h.3 u k) [
                | inr found ↦ inr found
                | inl earlier ↦ elim (split u earlier) [
                  | inl old ↦ inl old
                  | inr new ↦ inr (IsFound-member m there u (right.2 u new))
                ]
              ],
            )

      called :
          (m : String)
          → includes group m ≡ true
          → (ms users set : List String) → includes set m ≡ false
          → (r : Result (List String)) (after : List String) → call m (m ∷ set) ≡ some (r, after)
          → Within (m ∷ set) after
          → Right directory m (m ∷ set) r after
          → ((us : List String) → Looped directory identity ms us after (loop ms us after))
          → Looped directory identity (m ∷ ms) users set (loop (m ∷ ms) users set)
      unfolding resolve_members
      called m there ms users set new (err e) after run grows right rest = record {
        result = err (wrapped e ("resolve users failed" ∷ []));
        after = after;
        returns = rw (new, run) refl;
        grows = λ x h. grows x (Within-cons m set x h);
        right = record {
          culprit = right.culprit;
          reached =
              Reaches-trans directory identity m right.culprit
                (member identity group m itself known there) right.reached;
          no_group = right.no_group;
          no_user = right.no_user;
        };
      }
      called m there ms users set new (ok resolved) after run grows right rest =
          let others = rest (users ++ resolved) in
          record {
            result = others.result;
            after = others.after;
            returns = rw (new, run) others.returns;
            grows = λ x h. others.grows x (grows x (Within-cons m set x h));
            right =
                joined m there ms users set after resolved grows right others.result others.after
                  others.grows others.right;
          }

      pub loop-Looped :
          (ms users set : List String)
          → Within ms group
          → missing universe set ≤ bound
          → Looped directory identity ms users set (loop ms users set)
      unfolding resolve_members
      loop-Looped [] users set from enough = record {
        result = ok users;
        after = set;
        returns = refl;
        grows = λ x h. h;
        right = (λ x h. cc, λ x now before. cc, λ x h. h, λ u h. inl h);
      }
      loop-Looped (m ∷ ms) users set from enough =
          let there : includes group m ≡ true = from m (rw (===_self m) refl) in
          let others : Within ms group = λ x h. from x (ground arith) in
          elim (Bool-cases (includes set m)) [
            | inl old ↦
                let rest = loop-Looped ms users set others enough in
                rw old (record {
                  result = rest.result;
                  after = rest.after;
                  returns = rest.returns;
                  grows = rest.grows;
                  right =
                      skipped m ms users set rest.result rest.after (rest.grows m old) rest.right;
                })
            | inr new ↦
                let fewer =
                  missing-cons-lt universe set m (closed identity group known m there) new in
                let one = good m (m ∷ set) (omega arith) in
                let left = missing-Within universe (m ∷ set) one.after one.grows in
                called m there ms users set new one.result one.after one.returns one.grows one.right
                  (λ us. loop-Looped ms us one.after others (omega arith))
          ]
