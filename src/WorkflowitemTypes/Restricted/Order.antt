-- ===== src/WorkflowitemTypes/Restricted/Order.antt =====
-- The separation of the revocations in restricted.ts keeps them all.
use tru_budget.Base.{
  ◌≡◌, refl, ◌∙◌, inl, inr, Bool, ◌||◌, List, [], ◌∷◌, ◌++◌, arith, any, Bool-cases, ◌===◌, All,
}
use tru_budget.Intents.{Intent}
use tru_budget.Event.{
  Identity, Header, WorkflowitemPlace, BusinessEvent, workflowitem_permission_revoked,
}
use tru_budget.WorkflowitemTypes.Restricted.{
  permission_of, revoke_intent, split_from, order_revocations,
}

any-append {ℓ} :
    {A : Type ℓ} (p : A → Bool) (xs ys : List A) → any p (xs ++ ys) ≡ (any p xs || any p ys)
any-append p [] ys = refl
any-append p (x ∷ xs) ys = ground (arith, any-append p xs ys)

-- The event revokes a permission of this user.
abbrev pub Revokes : Identity → BusinessEvent → Type 0
Revokes revokee event =
    (header : Header) × (place : WorkflowitemPlace) × (intent : Intent) × (event
      ≡ workflowitem_permission_revoked header place intent revokee)

abbrev pub names : Intent → BusinessEvent → Bool
names intent event = permission_of event === intent

-- Separating the revocations loses none and adds none.
module _ {κ} (P : BusinessEvent → Type κ) where
  All-concat :
      (events : List BusinessEvent) (event : BusinessEvent)
      → All P events
      → P event
      → All P (events ++ event ∷ [])
  All-concat [] event h p = (p, tt)
  All-concat (e ∷ events) event h p = (h.0, All-concat events event h.1 p)

  All-join : (es fs : List BusinessEvent) → All P es → All P fs → All P (es ++ fs)
  All-join [] fs h k = k
  All-join (e ∷ es) fs h k = (h.0, All-join es fs h.1 k)

  split_from-All :
      (events others revokes : List BusinessEvent)
      → All P events
      → All P others
      → All P revokes
      → let lists = split_from events (others, revokes) in All P lists.0 × All P lists.1
  unfolding split_from
  split_from-All [] others revokes h k l = (k, l)
  split_from-All (event ∷ events) others revokes h k l =
      elim (Bool-cases (permission_of event === revoke_intent)) [
        | inl e ↦
            rw (e, split_from, All)
              (split_from-All events _ _ h.1 k (All-concat revokes event l h.0))
        | inr e ↦
            rw (e, split_from, All)
              (split_from-All events _ _ h.1 (All-concat revokes event l h.0) k)
      ]

split_from-any :
    (p : BusinessEvent → Bool) (events others revokes : List BusinessEvent)
    → let lists = split_from events (others, revokes) in
      (any p lists.0 || any p lists.1) ≡ (any p events || (any p others || any p revokes))
unfolding split_from
split_from-any p [] others revokes = refl
split_from-any p (event ∷ events) others revokes =
    elim (Bool-cases (permission_of event === revoke_intent)) [
      | inl e ↦
          rw (e, split_from)
            (split_from-any p events others (revokes ++ event ∷ [])
              ∙ ground (arith, any-append p revokes (event ∷ [])))
      | inr e ↦
          rw (e, split_from)
            (split_from-any p events (revokes ++ event ∷ []) others
              ∙ ground (arith, any-append p revokes (event ∷ [])))
    ]

pub order_revocations-All {κ} :
    (P : BusinessEvent → Type κ) (events : List BusinessEvent)
    → All P events
    → All P (order_revocations events)
unfolding order_revocations
order_revocations-All P events h =
    let (k, l) = split_from-All P events [] [] h tt tt in All-join P _ _ k l

pub order_revocations-any :
    (p : BusinessEvent → Bool) (events : List BusinessEvent)
    → any p (order_revocations events) ≡ any p events
unfolding order_revocations
order_revocations-any p events = any-append p _ _ ∙ split_from-any p events [] [] ∙ ground arith
