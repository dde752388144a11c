-- ===== src/Workflowitem/Ordering/Sorted.antt =====
-- What the sorted list is: the same workflowitems, in the intended order.
use mathlib.Core.List.{Perm}
use mathlib.Core.List.Perm
use tru_budget.Base.{
  ℕ, ◌+◌, ◌≤◌, ◌≡◌, refl, sym, ap, subst, ◌∙◌, ◌⊎◌, inl, inr, String, true, false, Option, none,
  some, List, [], ◌∷◌, arith, codes, All, map,
}
use tru_budget.Event.{Status, opened, closed}
use tru_budget.Workflowitem.Ordering.{
  ItemView, codes_lt, index_of, closed_at, sort, indexed, items, precedes, sort_workflowitems,
}
use tru_budget.Workflowitem.Ordering.Keys.{
  Key, key_lt, key_lt_trans, codes_lt-asymm, key, key_by, open_key, date_or_zero, HasDate,
  by_ordering_criteria-key,
}
use tru_budget.Workflowitem.Ordering.Insertion.{Pairwise, May, sort-perm, sort-All, sort-Pairwise}

-- The order of two open workflowitems: by their places in the ordering, those outside it behind,
-- by their times of creation.
abbrev pub OpenBefore : Option ℕ → Option ℕ → Option ℕ → Option ℕ → Type 0
OpenBefore (some i) (some j) c d = i ≤ j
OpenBefore (some i) none c d = Unit
OpenBefore none (some j) c d = ⊥
OpenBefore none none (some c) (some d) = c ≤ d
OpenBefore none none (some c) none = Unit
OpenBefore none none none d = Unit

abbrev pub StatusBefore : Status → Status → Type 0 → Type 0 → Type 0
StatusBefore closed closed Times Positions = Times
StatusBefore closed opened Times Positions = Unit
StatusBefore opened closed Times Positions = ⊥
StatusBefore opened opened Times Positions = Positions

module _ (dates : String → Option ℕ) (ordering : List String) where
  -- The intended order: closed workflowitems come first, by the time of closing.
  abbrev pub StandsBefore : ItemView → ItemView → Type 0
  StandsBefore a b =
      StatusBefore a.status b.status (codes_lt (codes (closed_at b)) (codes (closed_at a)) ≡ false)
        (OpenBefore (index_of ordering a.id) (index_of ordering b.id) (dates a.created_at)
          (dates b.created_at))

  OpenBefore-of_key :
      (p q : Option ℕ) {c d : Option ℕ} (i j x y : ℕ)
      → c ≡ some x
      → d ≡ some y
      → (key_lt (open_key p (date_or_zero c) i) (open_key q (date_or_zero d) j) ≡ true)
        ⊎ (key_lt (open_key q (date_or_zero d) j) (open_key p (date_or_zero c) i) ≡ false)
      → OpenBefore p q c d
  OpenBefore-of_key (some p) (some q) i j x y hc hd m = ground arith
  OpenBefore-of_key (some p) none i j x y hc hd m = tt
  OpenBefore-of_key none (some q) i j x y hc hd m = ground arith
  OpenBefore-of_key none none i j x y hc hd m = rw (hc, hd) (ground arith)

  StatusBefore-of_key :
      (s t : Status) (u v : List ℕ) (p q : Option ℕ) (c d i j : ℕ) {Positions : Type 0}
      → ((key_lt (open_key p c i) (open_key q d j) ≡ true)
            ⊎ (key_lt (open_key q d j) (open_key p c i) ≡ false)
          → Positions)
      → (key_lt (key_by s u (open_key p c i)) (key_by t v (open_key q d j)) ≡ true)
        ⊎ (key_lt (key_by t v (open_key q d j)) (key_by s u (open_key p c i)) ≡ false)
      → StatusBefore s t (codes_lt v u ≡ false) Positions
  StatusBefore-of_key closed closed u v p q c d i j f (inl h) = codes_lt-asymm u v h
  StatusBefore-of_key closed closed u v p q c d i j f (inr h) = h
  StatusBefore-of_key closed opened u v p q c d i j f m = tt
  StatusBefore-of_key opened closed u v (some _) q c d i j f m = ground arith
  StatusBefore-of_key opened closed u v none q c d i j f m = ground arith
  StatusBefore-of_key opened opened u v p q c d i j f m = f m

  StandsBefore-of_key :
      (a b : ℕ × ItemView)
      → HasDate dates ordering a.1
      → HasDate dates ordering b.1
      → (key_lt (key dates ordering a) (key dates ordering b) ≡ true)
        ⊎ (key_lt (key dates ordering b) (key dates ordering a) ≡ false)
      → StandsBefore a.1 b.1
  unfolding key
  StandsBefore-of_key (i, a) (j, b) (x, hx) (y, hy) m =
      StatusBefore-of_key a.status b.status (codes (closed_at a)) (codes (closed_at b))
        (index_of ordering a.id) (index_of ordering b.id) (date_or_zero (dates a.created_at))
        (date_or_zero (dates b.created_at)) i j
        (OpenBefore-of_key (index_of ordering a.id) (index_of ordering b.id) i j x y hx hy) m

All-relate {ℓ κ μ} :
    {A : Type ℓ} {B : Type κ} (S : B → B → Type μ) (P : A → Type μ) (R : A → A → Type μ) (f : A → B)
    (x : A) (xs : List A)
    → ((b : A) → P b → R x b → S (f x) (f b))
    → All P xs
    → All (R x) xs
    → All (S (f x)) (map f xs)
All-relate S P R f x [] g ps h = tt
All-relate S P R f x (y ∷ ys) g ps h = (g y ps.0 h.0, All-relate S P R f x ys g ps.1 h.1)

Pairwise-map {ℓ κ μ} :
    {A : Type ℓ} {B : Type κ} (S : B → B → Type μ) (P : A → Type μ) (R : A → A → Type μ) (f : A → B)
    → ((a b : A) → P a → P b → R a b → S (f a) (f b))
    → (xs : List A) → All P xs
    → Pairwise R xs
    → Pairwise S (map f xs)
Pairwise-map S P R f g [] ps h = tt
Pairwise-map S P R f g (x ∷ xs) ps h =
    (All-relate S P R f x xs (λ b. g x b ps.0) ps.1 h.0, Pairwise-map S P R f g xs ps.1 h.1)

module _ {ℓ} {T : Type ℓ} where
  items-indexed : (n : ℕ) (xs : List T) → items (indexed n xs) ≡ xs
  items-indexed n [] = refl
  items-indexed n (x ∷ xs) = ap (◌∷◌ x) (items-indexed (n + 1) xs)

  All-indexed {κ} :
      (P : T → Type κ) (n : ℕ) (xs : List T)
      → All P xs
      → All (λ (item : ℕ × T). P item.1) (indexed n xs)
  All-indexed P n [] h = tt
  All-indexed P n (x ∷ xs) h = (h.0, All-indexed P (n + 1) xs h.1)

  module _ (view_of : T → ItemView) (dates : String → Option ℕ) (ordering : List String) where
    IsDated : ℕ × T → Type 0
    IsDated item = HasDate dates ordering (view_of item.1)

    key_of : ℕ × T → Key
    key_of item = key dates ordering (item.0, view_of item.1)

    precedes-key :
        (a b : ℕ × T)
        → IsDated a
        → IsDated b
        → precedes view_of dates ordering a b ≡ key_lt (key_of a) (key_of b)
    unfolding IsDated key_of
    precedes-key a b ha hb =
        by_ordering_criteria-key dates ordering (a.0, view_of a.1) (b.0, view_of b.1) ha hb

    precedes_trans :
        (a b c : ℕ × T)
        → IsDated a
        → IsDated b
        → IsDated c
        → precedes view_of dates ordering a b ≡ true
        → precedes view_of dates ordering b c ≡ true
        → precedes view_of dates ordering a c ≡ true
    precedes_trans a b c ha hb hc h k =
        precedes-key a c ha hc
        ∙ key_lt_trans (key_of a) (key_of b) (key_of c) (sym (precedes-key a b ha hb) ∙ h)
            (sym (precedes-key b c hb hc) ∙ k)

    May-StandsBefore :
        (a b : ℕ × T)
        → IsDated a
        → IsDated b
        → May (precedes view_of dates ordering) a b
        → StandsBefore dates ordering (view_of a.1) (view_of b.1)
    unfolding IsDated key_of
    May-StandsBefore a b ha hb (inl h) =
        StandsBefore-of_key dates ordering (a.0, view_of a.1) (b.0, view_of b.1) ha hb
          (inl (sym (precedes-key a b ha hb) ∙ h))
    May-StandsBefore a b ha hb (inr h) =
        StandsBefore-of_key dates ordering (a.0, view_of a.1) (b.0, view_of b.1) ha hb
          (inr (sym (precedes-key b a hb ha) ∙ h))

    -- Sorting returns the given workflowitems, each as often as it was there.
    pub sort_workflowitems-perm :
        (xs : List T) → Perm (sort_workflowitems view_of dates ordering xs) xs
    unfolding sort_workflowitems
    sort_workflowitems-perm xs =
        subst (Perm (sort_workflowitems view_of dates ordering xs)) (items-indexed 0 xs) (
          Perm.map (λ (item : ℕ × T). item.1)
            (sort-perm (precedes view_of dates ordering) (indexed 0 xs)))

    -- Where every time of creation can be read, the sorted list is in the intended order: each
    -- workflowitem may stand before all that follow it.
    pub sort_workflowitems-sorted :
        (xs : List T)
        → All (λ x. HasDate dates ordering (view_of x)) xs
        → Pairwise
            (λ a b. StandsBefore dates ordering (view_of a) (view_of b))
            (sort_workflowitems view_of dates ordering xs)
    unfolding sort_workflowitems IsDated
    sort_workflowitems-sorted xs dated =
        let pairs = All-indexed (λ x. HasDate dates ordering (view_of x)) 0 xs dated in
        Pairwise-map (λ a b. StandsBefore dates ordering (view_of a) (view_of b)) IsDated
          (May (precedes view_of dates ordering)) (λ (item : ℕ × T). item.1) May-StandsBefore
          (sort (precedes view_of dates ordering) (indexed 0 xs))
          (sort-All (precedes view_of dates ordering) IsDated (indexed 0 xs) pairs)
          (sort-Pairwise (precedes view_of dates ordering) IsDated precedes_trans (indexed 0 xs)
            pairs)
