-- ===== src/Cache/Batches.antt =====
-- The batch loop of `updateCache`, api/src/service/cache2.ts, at a node that serves a chain.
use mathlib.Core.List.{append-nil, append_assoc}
use tru_budget.Base.{
  ℕ, zero, suc, ◌+◌, ◌<◌, ◌≡◌, refl, sym, ap, ◌∙◌, inl, inr, ◌⊎◌, String, List, [], ◌∷◌, ◌++◌,
  arith, length, take, drop, drop_add, drop-length-take, take-append-drop, length-take-drop,
}
use tru_budget.Cache.Parse.{Item}
use tru_budget.Cache.Refresh.{done, Node, Batches, batch_size, read_batches}

-- `liststreamitems` returns as many items as there are, up to the count, from the start on.
abbrev pub Serves : Node → (String → List Item) → Type 0
Serves node chain =
    (name : String) (count start : ℕ)
    → node.liststreamitems name count start ≡ done (take count (drop start (chain name)))

abbrev pub read : ℕ → List Item → Batches
read first new_items = record { first = first; new_items = new_items }

pub List-cases {ℓ} :
    {A : Type ℓ} (xs : List A) → (xs ≡ []) ⊎ ((x : A) × (rest : List A) × (xs ≡ x ∷ rest))
List-cases [] = inl refl
List-cases (x ∷ xs) = inr (x, xs, refl)

module _ (node : Node) (chain : String → List Item) (serves : Serves node chain)
    (name : String) where
  abbrev after : ℕ → List Item
  after first = drop first (chain name)

  -- One more batch leaves what is behind it.
  batch-after :
      (first : ℕ) (x : Item) (xs : List Item)
      → after first ≡ x ∷ xs
      → after (first + length (take batch_size (x ∷ xs))) ≡ drop batch_size (x ∷ xs)
  batch-after first x xs e =
      drop_add first _ (chain name)
      ∙ ap (drop (length (take batch_size (x ∷ xs)))) e
      ∙ drop-length-take batch_size (x ∷ xs)

  Batches-eq :
      {first first' : ℕ} {items items' : List Item}
      → first ≡ first'
      → items ≡ items'
      → done (read first items) ≡ done (read first' items')
  Batches-eq p q = λ i. done (read (p i) (q i))

  -- Where the answers of the node come from one chain: with more rounds than there are items left, the
  -- loop ends, and it has then read the rest of the stream, each item once and in order.
  pub read_batches-reads :
      (fuel first : ℕ) (new_items : List Item)
      → length (drop first (chain name)) < fuel
      → read_batches node fuel name first new_items
        ≡ done
            (read (first + length (drop first (chain name))) (new_items ++ drop first (chain name)))
  unfolding read_batches
  read_batches-reads zero first new_items h = absurd (omega arith)
  read_batches-reads (suc fuel) first new_items h = elim (List-cases (after first)) [
    | inl e ↦
        rw (serves name batch_size first, e) (Batches-eq (omega arith) (sym (append-nil new_items)))
    | inr (x, xs, e) ↦
        let behind = batch-after first x xs e in
        let batch = take batch_size (x ∷ xs) in
        let cut = take-append-drop batch_size (x ∷ xs) in
        let sizes = length-take-drop batch_size (x ∷ xs) in
        let some_read : 0 < length batch = omega arith in
        let rest =
          read_batches-reads fuel (first + length batch) (new_items ++ batch)
            (omega (arith, ap length behind, sizes, ap length e, some_read)) in
        rw (serves name batch_size first, e)
          (rest
            ∙ Batches-eq (omega (arith, ap length behind, sizes)) (
                append_assoc new_items batch _
                ∙ ap (λ l. new_items ++ l) (ap (λ l. batch ++ l) behind ∙ cut)))
  ]
