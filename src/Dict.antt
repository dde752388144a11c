-- ===== src/Dict.antt =====
-- JavaScript's `Map` and plain objects keyed by texts, in insertion order: a write to a known key
-- keeps its place.
pub mod Entries
pub mod Writes
use tru_budget.Base.{
  ◌≡◌, refl, ◌≢◌, String, Option, none, some, List, [], ◌∷◌, arith, ◌===◌, if◌then◌else◌, ===_self,
  ===_cases, eq_===, ===_eq, map, inl, inr,
}

abbrev pub Dict {ℓ} : Type ℓ → Type ℓ
Dict V = List (String × V)

module _ {ℓ} {V : Type ℓ} where
  -- `m.get(k)`, `o[k]`
  abbrev pub lookup : String → Dict V → Option V
  lookup k [] = none
  lookup k ((j, v) ∷ m) = if j === k then some v else lookup k m

  -- `m.set(k, v)`, `o[k] = v`
  abbrev pub insert : String → V → Dict V → Dict V
  insert k v [] = (k, v) ∷ []
  insert k v ((j, w) ∷ m) = if j === k then (j, v) ∷ m else (j, w) ∷ insert k v m

  -- `[...m.values()]`
  abbrev pub values : Dict V → List V
  values [] = []
  values ((_, v) ∷ m) = v ∷ values m

  -- `m.get(k) || d`
  abbrev pub lookup_or : V → String → Dict V → V
  lookup_or d k [] = d
  lookup_or d k ((j, v) ∷ m) = if j === k then v else lookup_or d k m

  -- `m.delete(k)`
  abbrev pub remove : String → Dict V → Dict V
  remove k [] = []
  remove k ((j, v) ∷ m) = if j === k then remove k m else (j, v) ∷ remove k m

  pub lookup-insert :
      (k j : String) (v : V) (m : Dict V)
      → lookup j (insert k v m) ≡ (if k === j then some v else lookup j m)
  lookup-insert k j v [] = refl
  lookup-insert k j v ((i, w) ∷ m) = elim (===_cases i k) [
    | inl (same, e) ↦ rw (e, same) (elim (===_cases k j) [ inl (_, f) ↦ rw f | inr (_, f) ↦ rw f ])
    | inr (other, e) ↦ rw e (elim (===_cases i j) [
      | inl (same, f) ↦ ground (arith, f, ===_eq k j, lookup-insert k j v m)
      | inr (_, f) ↦ rw f (lookup-insert k j v m)
    ])
  ]

  pub lookup-insert_self : (k : String) (v : V) (m : Dict V) → lookup k (insert k v m) ≡ some v
  lookup-insert_self k v m = rw (lookup-insert k k v m, ===_self k)

  pub lookup-insert_ne :
      (k j : String) (v : V) (m : Dict V) → k ≢ j → lookup j (insert k v m) ≡ lookup j m
  lookup-insert_ne k j v m ne = ground (arith, lookup-insert k j v m, ===_eq k j)

  pub lookup_or_eq :
      (d : V) (k : String) (m : Dict V)
      → lookup_or d k m ≡ elim (lookup k m) [ none ↦ d | some v ↦ v ]
  lookup_or_eq d k [] = refl
  lookup_or_eq d k ((j, v) ∷ m) = elim (===_cases j k) [
    | inl (_, e) ↦ rw e refl
    | inr (_, e) ↦ rw e (lookup_or_eq d k m)
  ]

  pub lookup-remove :
      (k j : String) (m : Dict V) → lookup j (remove k m) ≡ (if k === j then none else lookup j m)
  lookup-remove k j [] = elim (===_cases k j) [ inl (_, e) ↦ rw e refl | inr (_, e) ↦ rw e refl ]
  lookup-remove k j ((i, w) ∷ m) = elim (===_cases i k) [
    | inl (same, e) ↦ ground (arith, lookup-remove k j m, ===_eq k j, ===_eq i j)
    | inr (other, e) ↦ rw e (elim (===_cases i j) [
      | inl (same, f) ↦ ground (arith, f, ===_eq k j, lookup-remove k j m)
      | inr (_, f) ↦ rw f (lookup-remove k j m)
    ])
  ]
