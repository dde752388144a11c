-- ===== src/Cache/Listed.antt =====
-- The lookup tables of the cache, api/src/service/cache2.ts, against the cached entities.
use tru_budget.Base.{
  ◌≡◌, refl, ap, subst, inl, inr, String, true, ◌&&◌, ◌||◌, Option, none, some, is_some, List, [],
  ◌∷◌, ◌===◌, ===_self, ===_cases, includes, includes-append, arith, Bool-cases,
}
use tru_budget.Dict.{Dict, lookup, lookup_or, lookup_or_eq, insert, lookup-insert}
use tru_budget.Cache.Aggregates.{add_to_set, added, list_under}

pub some-injective {ℓ} : {A : Type ℓ} {a b : A} → some a ≡ some b → a ≡ b
some-injective {a = a} e = ap (λ o. elim o [ some x ↦ x | none ↦ a ]) e

includes-add_to_set :
    (i j : String) (set : List String)
    → includes (add_to_set i set) j ≡ ((i === j) || includes set j)
includes-add_to_set i j set = elim (Bool-cases (includes set i)) [
  | inl there ↦ elim (===_cases i j) [
    | inl (same, e) ↦ rw (there, e) (subst (λ k. includes set k ≡ true) same there)
    | inr (_, e) ↦ rw (there, e) refl
  ]
  | inr new ↦ rw (new, includes-append set (i ∷ []) j) (grind arith)
]

includes-added :
    (i j : String) (known : Option (List String))
    → includes (added i known) j
      ≡ ((i === j) || includes (elim known [ none ↦ [] | some set ↦ set ]) j)
includes-added i j none = refl
includes-added i j (some set) = includes-add_to_set i j set

-- One more child of one parent.
pub includes-list_under :
    (parent i s j : String) (table : Dict (List String))
    → includes (lookup_or [] s (list_under parent i table)) j
      ≡ (((parent === s) && (i === j)) || includes (lookup_or [] s table) j)
unfolding list_under
includes-list_under parent i s j table =
    rw
      (
        lookup_or_eq [] s (insert parent (added i (lookup parent table)) table),
        lookup_or_eq [] s table,
        lookup-insert parent s (added i (lookup parent table)) table,
      )
      (elim (===_cases parent s) [
        | inl (same, e) ↦ rw e (
            subst
              (λ k.
                includes (added i (lookup parent table)) j
                ≡ ((i === j) || includes (elim (lookup k table) [ none ↦ [] | some set ↦ set ]) j))
              same (includes-added i j (lookup parent table)))
        | inr (_, e) ↦ rw e refl
      ])

module _ {V : Type 0} (id parent : V → String) where
  -- What the table lists is cached, and what is cached is listed under its parent.
  pub record IsListed (table : Dict (List String)) (entities : Dict V) : Type 0 where
    pub cached :
        (s i : String)
        → includes (lookup_or [] s table) i ≡ true
        → is_some (lookup i entities) ≡ true
    pub listed :
        (i : String) (v : V)
        → lookup i entities ≡ some v
        → includes (lookup_or [] (parent v) table) i ≡ true

  pub IsListed-insert :
      (v : V) (table : Dict (List String)) (entities : Dict V)
      → IsListed table entities
      → IsListed (list_under (parent v) (id v) table) (insert (id v) v entities)
  IsListed-insert v table entities h = record {
    cached = λ s i there. elim (===_cases (id v) i) [
      | inl (same, e) ↦ rw (lookup-insert (id v) i v entities, e) refl
      | inr (_, e) ↦
          rw (lookup-insert (id v) i v entities, e)
            (h.cached s i (ground (arith, includes-list_under (parent v) (id v) s i table)))
    ];
    listed = λ i w known. elim (===_cases (id v) i) [
      | inl (same, e) ↦
          let same_value : v ≡ w =
            some-injective (rw (lookup-insert (id v) i v entities, e) at known) in
          ground (
            arith,
            includes-list_under (parent v) (id v) (parent w) i table,
            ap parent same_value,
            ===_self (parent v),
            e,
          )
      | inr (_, e) ↦
          let before = h.listed i w (rw (lookup-insert (id v) i v entities, e) at known) in
          ground (arith, includes-list_under (parent v) (id v) (parent w) i table, before)
    ];
  }
