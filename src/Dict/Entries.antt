-- ===== src/Dict/Entries.antt =====
-- Predicates on the entries of a dictionary.
use tru_budget.Base.{◌≡◌, subst, inl, inr, String, some, [], ◌∷◌, arith, ===_cases, All}
use tru_budget.Dict.{Dict, lookup, insert}

-- Every value satisfies the predicate together with its key.
abbrev pub Entries {ℓ κ} : {V : Type ℓ} → (String → V → Type κ) → Dict V → Type κ
Entries P = All (λ entry. P entry.0 entry.1)

module _ {ℓ κ} {V : Type ℓ} (P : String → V → Type κ) where
  pub Entries-insert :
      (k : String) (v : V) (m : Dict V) → P k v → Entries P m → Entries P (insert k v m)
  Entries-insert k v [] p h = (p, tt)
  Entries-insert k v ((j, w) ∷ m) p h = elim (===_cases j k) [
    | inl (same, e) ↦ rw e (rw same p, h.1)
    | inr (_, e) ↦ rw e (h.0, Entries-insert k v m p h.1)
  ]

  pub Entries-lookup : (k : String) (v : V) (m : Dict V) → Entries P m → lookup k m ≡ some v → P k v
  Entries-lookup k v [] h e = cc
  Entries-lookup k v ((j, w) ∷ m) h e = elim (===_cases j k) [
    | inl (same, t) ↦
        let found : w ≡ v = ground (arith, t) in
        subst (λ u. P k u) found (subst (λ i. P i w) same h.0)
    | inr (_, t) ↦ Entries-lookup k v m h.1 (ground (arith, t))
  ]
