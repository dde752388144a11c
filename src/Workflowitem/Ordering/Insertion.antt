-- ===== src/Workflowitem/Ordering/Insertion.antt =====
-- The stable sort: a permutation, and sorted where the comparison is transitive.
use mathlib.Core.List.{Perm, perm_middle, append-nil}
use mathlib.Core.List.Perm
use tru_budget.Base.{
  ◌≡◌, subst, ◌⊎◌, inl, inr, Bool, true, false, List, [], ◌∷◌, ◌++◌, Bool-cases, All,
}
use tru_budget.Workflowitem.Ordering.{insert_sorted, sort_into, sort}

-- Every element stands in the relation to all that follow it.
abbrev pub Pairwise {ℓ κ} : {A : Type ℓ} → (A → A → Type κ) → List A → Type κ
Pairwise R [] = Unit
Pairwise R (x ∷ xs) = All (R x) xs × Pairwise R xs

pub All-map {ℓ κ μ} :
    {A : Type ℓ} {P : A → Type κ} {Q : A → Type μ}
    → ((a : A) → P a → Q a)
    → (xs : List A) → All P xs
    → All Q xs
All-map f [] h = tt
All-map f (x ∷ xs) h = (f x h.0, All-map f xs h.1)

module _ {ℓ} {A : Type ℓ} (less : A → A → Bool) where
  insert_sorted-perm : (x : A) (ys : List A) → Perm (insert_sorted less x ys) (x ∷ ys)
  unfolding insert_sorted
  insert_sorted-perm x [] = Perm.refl (x ∷ [])
  insert_sorted-perm x (y ∷ ys) = elim (Bool-cases (less x y)) [
    | inl first ↦ rw first (Perm.refl (x ∷ y ∷ ys))
    | inr later ↦ rw later (Perm.trans (Perm.cons y (insert_sorted-perm x ys)) (Perm.swap x y ys))
  ]

  sort_into-perm : (sorted xs : List A) → Perm (sort_into less sorted xs) (xs ++ sorted)
  unfolding sort_into
  sort_into-perm sorted [] = Perm.refl sorted
  sort_into-perm sorted (x ∷ xs) =
      Perm.trans (sort_into-perm (insert_sorted less x sorted) xs)
        (Perm.trans (Perm.append_left xs (insert_sorted-perm x sorted)) (perm_middle xs sorted))

  pub sort-perm : (xs : List A) → Perm (sort less xs) xs
  unfolding sort
  sort-perm xs = subst (Perm (sort_into less [] xs)) (append-nil xs) (sort_into-perm [] xs)

  -- `a` may stand before `b`.
  abbrev pub May : A → A → Type 0
  May a b = (less a b ≡ true) ⊎ (less b a ≡ false)

  insert_sorted-All {κ} :
      (Q : A → Type κ) (x : A) (ys : List A) → Q x → All Q ys → All Q (insert_sorted less x ys)
  unfolding insert_sorted
  insert_sorted-All Q x [] q h = (q, tt)
  insert_sorted-All Q x (y ∷ ys) q h = elim (Bool-cases (less x y)) [
    | inl first ↦ rw first (q, h)
    | inr later ↦ rw later (h.0, insert_sorted-All Q x ys q h.1)
  ]

  sort_into-All {κ} :
      (Q : A → Type κ) (sorted xs : List A)
      → All Q sorted
      → All Q xs
      → All Q (sort_into less sorted xs)
  unfolding sort_into
  sort_into-All Q sorted [] h k = h
  sort_into-All Q sorted (x ∷ xs) h k =
      sort_into-All Q (insert_sorted less x sorted) xs (insert_sorted-All Q x sorted k.0 h) k.1

  pub sort-All {κ} : (Q : A → Type κ) (xs : List A) → All Q xs → All Q (sort less xs)
  unfolding sort
  sort-All Q xs h = sort_into-All Q [] xs tt h

  module _ {κ} (P : A → Type κ)
      (trans : (a b c : A)
        → P a
        → P b
        → P c
        → less a b ≡ true
        → less b c ≡ true
        → less a c ≡ true) where
    May-later :
        (x y : A) (zs : List A)
        → P x
        → P y
        → less x y ≡ true
        → All P zs
        → All (May y) zs
        → All (May x) zs
    May-later x y [] px py h ps ms = tt
    May-later x y (z ∷ zs) px py h ps ms = (one ms.0, May-later x y zs px py h ps.1 ms.1)
      where
        two : (less z x ≡ true) ⊎ (less z x ≡ false) → less z y ≡ false → May x z
        two (inl less_zx) no_zy = absurd (cc (trans z x y ps.0 px py less_zx h, no_zy))
        two (inr no_zx) no_zy = inr no_zx

        one : May y z → May x z
        one (inl less_yz) = inl (trans x y z px py ps.0 h less_yz)
        one (inr no_zy) = two (Bool-cases (less z x)) no_zy

    insert_sorted-Pairwise :
        (x : A) (ys : List A)
        → P x
        → All P ys
        → Pairwise May ys
        → Pairwise May (insert_sorted less x ys)
    unfolding insert_sorted
    insert_sorted-Pairwise x [] p ps h = (tt, tt)
    insert_sorted-Pairwise x (y ∷ ys) p ps h = elim (Bool-cases (less x y)) [
      | inl first ↦ rw first ((inl first, May-later x y ys p ps.0 first ps.1 h.0), h)
      | inr later ↦
          rw later
            (insert_sorted-All (May y) x ys (inr later) h.0, insert_sorted-Pairwise x ys p ps.1 h.1)
    ]

    sort_into-Pairwise :
        (sorted xs : List A)
        → All P sorted
        → All P xs
        → Pairwise May sorted
        → Pairwise May (sort_into less sorted xs)
    unfolding sort_into
    sort_into-Pairwise sorted [] ps qs h = h
    sort_into-Pairwise sorted (x ∷ xs) ps qs h =
        sort_into-Pairwise (insert_sorted less x sorted) xs (insert_sorted-All P x sorted qs.0 ps)
          qs.1 (insert_sorted-Pairwise x sorted qs.0 ps h)

    pub sort-Pairwise : (xs : List A) → All P xs → Pairwise May (sort less xs)
    unfolding sort
    sort-Pairwise xs ps = sort_into-Pairwise [] xs tt ps tt
