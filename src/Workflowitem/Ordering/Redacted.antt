-- ===== src/Workflowitem/Ordering/Redacted.antt =====
-- A redacted workflowitem keeps its place.
use tru_budget.Base.{
  ℕ, ◌+◌, ◌≡◌, refl, sym, ap, ◌∙◌, inl, inr, String, Bool, Option, List, [], ◌∷◌, map, find,
  Bool-cases,
}
use tru_budget.Workflowitem.{
  Workflowitem, RedactedWorkflowitem, TraceEvent, redact, redact_log, is_close,
}
use tru_budget.Workflowitem.Ordering.{
  view, redacted_view, close_time, by_ordering_criteria, insert_sorted, sort_into, sort, indexed,
  items, precedes, sort_workflowitems,
}

close_time-redact_log :
    (log : List TraceEvent) (id : String)
    → close_time (find is_close (redact_log log)) id ≡ close_time (find is_close log) id
unfolding redact_log
close_time-redact_log [] id = refl
close_time-redact_log (e ∷ log) id = elim (Bool-cases (is_close e)) [
  | inl yes_close ↦ rw yes_close (rw yes_close)
  | inr other ↦ rw other (close_time-redact_log log id)
]

module _ {ℓ κ} {A : Type ℓ} {B : Type κ} (less : A → A → Bool) (less' : B → B → Bool) (f : A → B)
    (agree : (a b : A) → less' (f a) (f b) ≡ less a b) where
  map-insert_sorted :
      (x : A) (ys : List A) → map f (insert_sorted less x ys) ≡ insert_sorted less' (f x) (map f ys)
  unfolding insert_sorted
  map-insert_sorted x [] = refl
  map-insert_sorted x (y ∷ ys) = elim (Bool-cases (less x y)) [
    | inl first ↦ rw (agree x y, first)
    | inr later ↦ rw (agree x y, later) (ap (◌∷◌ (f y)) (map-insert_sorted x ys))
  ]

  map-sort_into :
      (sorted xs : List A)
      → map f (sort_into less sorted xs) ≡ sort_into less' (map f sorted) (map f xs)
  unfolding sort_into
  map-sort_into sorted [] = refl
  map-sort_into sorted (x ∷ xs) =
      map-sort_into (insert_sorted less x sorted) xs
      ∙ ap (λ l. sort_into less' l (map f xs)) (map-insert_sorted x sorted)

  map-sort : (xs : List A) → map f (sort less xs) ≡ sort less' (map f xs)
  unfolding sort
  map-sort xs = map-sort_into [] xs

pair_redact : ℕ × Workflowitem → ℕ × RedactedWorkflowitem
pair_redact (n, w) = (n, redact w)

map-items : (ps : List (ℕ × Workflowitem)) → map redact (items ps) ≡ items (map pair_redact ps)
unfolding pair_redact
map-items [] = refl
map-items (p ∷ ps) = ap (◌∷◌ (redact p.1)) (map-items ps)

map-indexed :
    (n : ℕ) (ws : List Workflowitem) → map pair_redact (indexed n ws) ≡ indexed n (map redact ws)
unfolding pair_redact
map-indexed n [] = refl
map-indexed n (w ∷ ws) = ap (◌∷◌ (n, redact w)) (map-indexed (n + 1) ws)

module _ (dates : String → Option ℕ) (ordering : List String) where
  precedes-redact :
      (a b : ℕ × Workflowitem)
      → precedes redacted_view dates ordering (pair_redact a) (pair_redact b)
        ≡ precedes view dates ordering a b
  unfolding by_ordering_criteria redact pair_redact
  precedes-redact (i, v) (j, w) =
      rw (close_time-redact_log v.log v.id, close_time-redact_log w.log w.id)

  -- Redacting and sorting commute: what is left of a redacted workflowitem is enough to keep every
  -- workflowitem in the place that it has for those who see it whole.
  pub sort_workflowitems-redact :
      (ws : List Workflowitem)
      → sort_workflowitems redacted_view dates ordering (map redact ws)
        ≡ map redact (sort_workflowitems view dates ordering ws)
  unfolding sort_workflowitems
  sort_workflowitems-redact ws = sym (
      map-items (sort (precedes view dates ordering) (indexed 0 ws))
      ∙ ap items (
          map-sort (precedes view dates ordering) (precedes redacted_view dates ordering)
            pair_redact precedes-redact (indexed 0 ws))
      ∙ ap (λ l. items (sort (precedes redacted_view dates ordering) l)) (map-indexed 0 ws))
