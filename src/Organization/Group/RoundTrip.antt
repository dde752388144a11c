-- ===== src/Organization/Group/RoundTrip.antt =====
-- Adding members to a group and removing them again, in
-- api/src/service/domain/organization/group_eventsourcing.ts.
use mathlib.Core.List.{append-nil}
use tru_budget.Base.{
  ◌≡◌, refl, sym, ap, ◌∙◌, inl, inr, String, Bool, true, false, not, some, List, [], ◌∷◌, ◌++◌,
  ◌===◌, ===_self, ===_eq, eq_===, includes, keep, All, arith, Bool-cases,
}
use tru_budget.Result.{Failure, ok}
use tru_budget.Dict.{Dict, lookup, insert, lookup-insert_self}
use tru_budget.Joi.{Joi}
use tru_budget.Event.{Header, Identity, BusinessEvent, group_member_added, group_member_removed}
use tru_budget.Organization.Group.{Group, schema, answered, validate}
use tru_budget.Organization.Group.EventSourcing.{
  with_members, without_members, settled, add_new, apply, source_from, source_groups,
}

keep-All {ℓ} : {A : Type ℓ} (p : A → Bool) (xs : List A) → All (λ x. p x ≡ true) xs → keep p xs ≡ xs
keep-All p [] h = refl
keep-All p (x ∷ xs) h = rw h.0 (ap (λ l. x ∷ l) (keep-All p xs h.1))

keep-none {ℓ} :
    {A : Type ℓ} (p : A → Bool) (xs : List A) → All (λ x. p x ≡ false) xs → keep p xs ≡ []
keep-none p [] h = refl
keep-none p (x ∷ xs) h = rw h.0 (keep-none p xs h.1)

keep-append {ℓ} :
    {A : Type ℓ} (p : A → Bool) (xs ys : List A) → keep p (xs ++ ys) ≡ keep p xs ++ keep p ys
keep-append p [] ys = refl
keep-append p (x ∷ xs) ys = elim (Bool-cases (p x)) [
  | inl t ↦ rw t (ap (λ l. x ∷ l) (keep-append p xs ys))
  | inr f ↦ rw f (keep-append p xs ys)
]

-- Where none of the candidates is in a list, all of them are new,
abbrev pub Disjoint : List Identity → List Identity → Type 0
Disjoint xs ys = All (λ x. includes ys x ≡ false) xs

new-all :
    (members candidates : List Identity)
    → Disjoint candidates members
    → keep (λ m. not (includes members m)) candidates ≡ candidates
new-all members [] h = refl
new-all members (c ∷ cs) h = rw h.0 (ap (λ l. c ∷ l) (new-all members cs h.1))

===_sym : (x y : String) → (x === y) ≡ true → (y === x) ≡ true
===_sym x y h = eq_=== y x (sym (===_eq x y h))

Disjoint-tail : (x : String) (xs ys : List String) → Disjoint ys (x ∷ xs) → includes ys x ≡ false
Disjoint-tail x xs [] h = refl
Disjoint-tail x xs (y ∷ ys) h = ground (arith, ===_sym y x, Disjoint-tail x xs ys, h.0)

Disjoint-rest : (x : String) (xs ys : List String) → Disjoint ys (x ∷ xs) → Disjoint ys xs
Disjoint-rest x xs [] h = tt
Disjoint-rest x xs (y ∷ ys) h = (ground (arith, h.0), Disjoint-rest x xs ys h.1)

-- none of the old ones is taken away,
old-stay :
    (members gone : List Identity)
    → Disjoint gone members
    → keep (λ m. not (includes gone m)) members ≡ members
old-stay [] gone h = refl
old-stay (m ∷ ms) gone h =
    rw (Disjoint-tail m ms gone h) (ap (λ l. m ∷ l) (old-stay ms gone (Disjoint-rest m ms gone h)))

-- and all of the new ones are.
within_self :
    (xs ys : List Identity)
    → ((x : String) → includes xs x ≡ true → includes ys x ≡ true)
    → keep (λ m. not (includes ys m)) xs ≡ []
within_self [] ys h = refl
within_self (x ∷ xs) ys h =
    rw (h x (rw (===_self x) refl)) (within_self xs ys (λ y k. h y (ground arith)))

pub removed-added :
    (g : Group) (more : List Identity)
    → Disjoint more g.members
    → without_members (with_members g more) more ≡ g
removed-added g more h =
    ap (λ l. record g { members = l })
      (keep-append (λ m. not (includes more m)) g.members more
        ∙ ap (λ l. l ++ keep (λ m. not (includes more m)) more) (old-stay g.members more h)
        ∙ ap (λ l. g.members ++ l) (within_self more more (λ x k. k))
        ∙ append-nil g.members)

-- the group with one more trace event
abbrev pub logged : String → BusinessEvent → Group → Group
logged id event g = record g {
  log =
      g.log
      ++ record { entity_id = id; business_event = event; display_name = g.display_name } ∷ [];
}

module _ (joi : Joi) where
  source_from-append :
      (es fs : List BusinessEvent) (state : Dict Group × List Failure)
      → source_from joi (es ++ fs) state ≡ source_from joi fs (source_from joi es state)
  unfolding source_from
  source_from-append [] fs state = refl
  source_from-append (e ∷ es) fs state = source_from-append es fs (apply joi e state)

  valid-eq-ok : (g : Group) → schema joi g ≡ true → validate joi g ≡ ok g
  unfolding validate
  valid-eq-ok g passes = ap (λ b. answered joi b g) passes

  added :
      (header : Header) (id : String) (m : Identity) (ms : List Identity) (groups : Dict Group)
      (errors : List Failure) (g : Group)
      → lookup id groups ≡ some g
      → Disjoint (m ∷ ms) g.members
      → schema joi (with_members g (m ∷ ms)) ≡ true
      → apply joi (group_member_added header id (m ∷ ms)) (groups, errors) ≡ (
        insert id
            (logged id (group_member_added header id (m ∷ ms)) (with_members g (m ∷ ms)))
            groups,
        errors,
      )
  unfolding apply
  added header id m ms groups errors g found new valid = rw found (
      ap (λ l. add_new joi (group_member_added header id (m ∷ ms)) id g l (groups, errors))
        (new-all g.members (m ∷ ms) new)
      ∙ ap (λ r. settled joi (group_member_added header id (m ∷ ms)) id r (groups, errors))
          (valid-eq-ok (with_members g (m ∷ ms)) valid))

  removed :
      (header : Header) (id : String) (gone : List Identity) (groups : Dict Group)
      (errors : List Failure) (g : Group)
      → lookup id groups ≡ some g
      → schema joi (without_members g gone) ≡ true
      → apply joi (group_member_removed header id gone) (groups, errors) ≡ (
        insert id (logged id (group_member_removed header id gone) (without_members g gone)) groups,
        errors,
      )
  unfolding apply
  removed header id gone groups errors g found valid = rw found (
      ap (λ r. settled joi (group_member_removed header id gone) id r (groups, errors))
        (valid-eq-ok (without_members g gone) valid))

  -- Members of whom none is in a group, added and then removed again, leave the group as it was, but
  -- for the two events in its log, and no error, where the group passes the schema with the new
  -- members and with the first event in its log.
  pub source_groups-RoundTrip :
      (events : List BusinessEvent) (h h' : Header) (id : String) (m : Identity)
      (ms : List Identity) (g : Group)
      → lookup id (source_groups joi events).0 ≡ some g
      → Disjoint (m ∷ ms) g.members
      → schema joi (with_members g (m ∷ ms)) ≡ true
      → schema joi (logged id (group_member_added h id (m ∷ ms)) g) ≡ true
      → let add = group_member_added h id (m ∷ ms) in
        let take_away = group_member_removed h' id (m ∷ ms) in
        let after = source_groups joi (events ++ add ∷ take_away ∷ []) in
        (lookup id after.0 ≡ some (logged id take_away (logged id add g)))
        × (after.1 ≡ (source_groups joi events).1)
  unfolding source_groups source_from
  source_groups-RoundTrip events h h' id m ms g found new valid valid_log =
      let add = group_member_added h id (m ∷ ms) in
      let take_away = group_member_removed h' id (m ∷ ms) in
      let before = source_from joi events ([], []) in
      let back : without_members (logged id add (with_members g (m ∷ ms))) (m ∷ ms)
          ≡ logged id add g =
        ap (logged id add) (removed-added g (m ∷ ms) new) in
      let groups = insert id (logged id add (with_members g (m ∷ ms))) before.0 in
      let whole : source_from joi (events ++ add ∷ take_away ∷ []) ([], [])
          ≡ (insert id (logged id take_away (logged id add g)) groups, before.1) =
        source_from-append events (add ∷ take_away ∷ []) ([], [])
        ∙ ap (apply joi take_away) (added h id m ms before.0 before.1 g found new valid)
        ∙ removed h' id (m ∷ ms) groups before.1 (logged id add (with_members g (m ∷ ms)))
            (lookup-insert_self id _ before.0) (ap (schema joi) back ∙ valid_log)
        ∙ ap (λ k. (insert id (logged id take_away k) groups, before.1)) back in
      (
        ap (λ s. lookup id s.0) whole
            ∙ lookup-insert_self id (logged id take_away (logged id add g)) groups,
        ap (λ s. s.1) whole,
      )
