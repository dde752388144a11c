-- ===== src/Dict/Writes.antt =====
-- Writing all values of a dictionary, each under its own key, over an earlier version of it.
use tru_budget.Base.{
  ◌≡◌, ◌≢◌, refl, sym, ap, ◌∙◌, inl, inr, String, true, false, List, [], ◌∷◌, arith, ===_cases,
  ===_eq, eq_===, ◌===◌, All,
}
use tru_budget.Dict.{Dict, insert, values}
use tru_budget.Dict.Entries.{Entries}

module _ {ℓ} {V : Type ℓ} where
  -- No key twice.
  abbrev pub Unique : Dict V → Type ℓ
  Unique [] = Unit
  Unique ((k, _) ∷ m) = All (λ e. e.0 ≢ k) m × Unique m

  -- The keys of the first are the first keys of the second, in order.
  abbrev pub Covers : Dict V → Dict V → Type 0
  Covers [] m = Unit
  Covers ((k, v) ∷ d) [] = ⊥
  Covers ((k, v) ∷ d) ((j, w) ∷ m) = (k ≡ j) × Covers d m

  All-insert :
      (k k' : String) (v : V) (m : Dict V)
      → k ≢ k'
      → All (λ e. e.0 ≢ k') m
      → All (λ e. e.0 ≢ k') (insert k v m)
  All-insert k k' v [] ne h = (ne, tt)
  All-insert k k' v ((j, w) ∷ m) ne h = elim (===_cases j k) [
    | inl (same, e) ↦ rw e h
    | inr (_, e) ↦ rw e (h.0, All-insert k k' v m ne h.1)
  ]

  pub Unique-insert : (k : String) (v : V) (m : Dict V) → Unique m → Unique (insert k v m)
  Unique-insert k v [] u = (tt, tt)
  Unique-insert k v ((j, w) ∷ m) u = elim (===_cases j k) [
    | inl (same, e) ↦ rw e u
    | inr (ne, e) ↦ rw e (All-insert k j v m (λ f. ne (sym f)) u.0, Unique-insert k v m u.1)
  ]

  pub Covers-refl : (m : Dict V) → Covers m m
  Covers-refl [] = tt
  Covers-refl ((k, v) ∷ m) = (refl, Covers-refl m)

  pub Covers-insert : (k : String) (v : V) (d m : Dict V) → Covers d m → Covers d (insert k v m)
  Covers-insert k v [] m c = tt
  Covers-insert k v ((i, u) ∷ d) [] c = absurd c
  Covers-insert k v ((i, u) ∷ d) ((j, w) ∷ m) c = elim (===_cases j k) [
    | inl (same, e) ↦ rw e c
    | inr (ne, e) ↦ rw e (c.0, Covers-insert k v d m c.1)
  ]

  module _ (id : V → String) where
    abbrev pub put_all : List V → Dict V → Dict V
    put_all [] d = d
    put_all (v ∷ vs) d = put_all vs (insert (id v) v d)

    put_all_behind :
        (j : String) (w : V) (m d : Dict V)
        → Entries (λ k v. id v ≡ k) m
        → All (λ e. e.0 ≢ j) m
        → put_all (values m) ((j, w) ∷ d) ≡ (j, w) ∷ put_all (values m) d
    put_all_behind j w [] d own apart = refl
    put_all_behind j w ((k, v) ∷ m) d own apart =
        let other : (j === id v) ≡ false = ground (arith, ===_eq j (id v), own.0, apart.0) in
        let kept : insert (id v) v ((j, w) ∷ d) ≡ (j, w) ∷ insert (id v) v d = rw other refl in
        ap (put_all (values m)) kept ∙ put_all_behind j w m (insert (id v) v d) own.1 apart.1

    -- Where the keys are the values' own and none is there twice, this gives the later version.
    pub put_all-values :
        (m d : Dict V)
        → Entries (λ k v. id v ≡ k) m
        → Unique m
        → Covers d m
        → put_all (values m) d ≡ m
    put_all-values [] [] own u c = refl
    put_all-values [] ((i, w) ∷ d) own u c = absurd c
    put_all-values ((k, v) ∷ m) [] own u c =
        ap (λ i. put_all (values m) ((i, v) ∷ [])) own.0
        ∙ put_all_behind k v m [] own.1 u.0
        ∙ ap (λ l. (k, v) ∷ l) (put_all-values m [] own.1 u.1 tt)
    put_all-values ((k, v) ∷ m) ((i, w) ∷ d) own u c =
        let same : (i === id v) ≡ true = eq_=== i (id v) (c.0 ∙ sym own.0) in
        let written : insert (id v) v ((i, w) ∷ d) ≡ (k, v) ∷ d =
          rw same (ap (λ l. (l, v) ∷ d) c.0) in
        ap (put_all (values m)) written
        ∙ put_all_behind k v m d own.1 u.0
        ∙ ap (λ l. (k, v) ∷ l) (put_all-values m d own.1 u.1 c.1)
