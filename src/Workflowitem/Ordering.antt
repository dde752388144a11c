-- ===== src/Workflowitem/Ordering.antt =====
-- api/src/service/domain/workflow/workflowitem_ordering.ts: the order in which workflowitems are
-- shown and closed. `Array.prototype.sort` is a stable sort: each item in turn goes in before the
-- first one that it precedes. (Where the comparison is inconsistent, JavaScript leaves the order to
-- the engine.) The value of a `Date` is a parameter: `none` is an invalid date, all whose
-- comparisons fail.
pub mod Keys
pub mod Insertion
pub mod Sorted
pub mod Redacted
use Prim.Native.String.{◌++◌ as ◌<>◌}
use tru_budget.Base.{
  ℕ, zero, suc, ◌+◌, String, Bool, true, false, ◌&&◌, Option, none, some, List, [], ◌∷◌, map, find,
  ltb, codes, ◌===◌, if◌then◌else◌,
}
use tru_budget.Event.{Status, opened, closed, type_of, header_of}
use tru_budget.Workflowitem.{Workflowitem, RedactedWorkflowitem, TraceEvent}

-- What the order reads of a workflowitem, redacted or not.
pub record ItemView : Type 0 where
  pub id : String
  pub status : Status
  pub created_at : String
  pub log : List TraceEvent

abbrev pub view : Workflowitem → ItemView
view w = record { id = w.id; status = w.status; created_at = w.created_at; log = w.log }

abbrev pub redacted_view : RedactedWorkflowitem → ItemView
redacted_view w = record { id = w.id; status = w.status; created_at = w.created_at; log = w.log }

-- -1, 0 and 1
pub data Comparison : Type 0 where
  before same after : Comparison

-- `<` on texts
abbrev pub codes_lt : List ℕ → List ℕ → Bool
codes_lt [] [] = false
codes_lt [] (_ ∷ _) = true
codes_lt (_ ∷ _) [] = false
codes_lt (a ∷ s) (b ∷ t) = if ltb a b then true else if ltb b a then false else codes_lt s t

-- `ordering.indexOf(id)`, where `none` is -1
abbrev pub index_of : List String → String → Option ℕ
index_of [] id = none
index_of (x ∷ xs) id =
    let rest = index_of xs id in
    if x === id then some 0 else elim rest [ none ↦ none | some i ↦ some (suc i) ]

abbrev pub is_closed : Status → Bool
is_closed closed = true
is_closed opened = false

-- The time of the first close event. Without one, the source returns an `AssertionError`, which
-- the comparison turns into its text.
abbrev pub close_time : Option TraceEvent → String → String
close_time none id = "AssertionError [ERR_ASSERTION]: Expected close event for workflowitem " <> id
close_time (some e) id = (header_of e.business_event).time

unfoldable pub closed_at : ItemView → String
closed_at item =
    close_time
      (find (λ (e : TraceEvent). type_of e.business_event === "workflowitem_closed") item.log)
      item.id

abbrev pub date_comparison : Option ℕ → Option ℕ → Comparison
date_comparison (some a) (some b) = if ltb a b then before else if ltb b a then after else same
date_comparison _ _ = same

module _ (dates : String → Option ℕ) (ordering : List String) where
  unfoldable pub by_creation_time : ItemView → ItemView → Comparison
  by_creation_time a b = date_comparison (dates a.created_at) (dates b.created_at)

  -- the last branch: neither is in the ordering
  abbrev pub by_age : ℕ → ℕ → Comparison → Comparison
  by_age index_a index_b before = before
  by_age index_a index_b after = after
  by_age index_a index_b same = if ltb index_b index_a then after else before

  -- the branches for two workflowitems that are not closed
  abbrev pub by_position : ℕ → ℕ → Option ℕ → Option ℕ → Comparison → Comparison
  by_position index_a index_b (some i) (some j) ages = if ltb i j then before else after
  by_position index_a index_b (some i) none ages = before
  by_position index_a index_b none (some j) ages = after
  by_position index_a index_b none none ages = by_age index_a index_b ages

  abbrev pub by_state : Bool → Bool → Comparison → Comparison → Comparison
  by_state true true times positions = times
  by_state true false times positions = before
  by_state false true times positions = after
  by_state false false times positions = positions

  -- `byOrderingCriteria`, on items with their indexes
  unfoldable pub by_ordering_criteria : ℕ × ItemView → ℕ × ItemView → Comparison
  unfolding by_creation_time closed_at
  by_ordering_criteria (index_a, a) (index_b, b) =
      by_state (is_closed a.status) (is_closed b.status)
        (if codes_lt (codes (closed_at a)) (codes (closed_at b)) then before else after)
        (by_position index_a index_b (index_of ordering a.id) (index_of ordering b.id)
          (by_creation_time a b))

abbrev pub is_before : Comparison → Bool
is_before before = true
is_before same = false
is_before after = false

module _ {ℓ} {A : Type ℓ} (less : A → A → Bool) where
  pub insert_sorted : A → List A → List A
  insert_sorted x [] = x ∷ []
  insert_sorted x (y ∷ ys) = if less x y then x ∷ y ∷ ys else y ∷ insert_sorted x ys

  pub sort_into : List A → List A → List A
  sort_into sorted [] = sorted
  sort_into sorted (x ∷ xs) = sort_into (insert_sorted x sorted) xs

  -- `items.sort(…)`
  unfoldable pub sort : List A → List A
  unfolding sort_into insert_sorted
  sort xs = sort_into [] xs

module _ {ℓ} {T : Type ℓ} where
  abbrev pub indexed : ℕ → List T → List (ℕ × T)
  indexed n [] = []
  indexed n (x ∷ xs) = (n, x) ∷ indexed (n + 1) xs

  abbrev pub items : List (ℕ × T) → List T
  items = map (λ (item : ℕ × T). item.1)

module _ {ℓ} {T : Type ℓ} (view_of : T → ItemView) (dates : String → Option ℕ)
    (ordering : List String) where
  abbrev pub precedes : ℕ × T → ℕ × T → Bool
  precedes a b =
      is_before (by_ordering_criteria dates ordering (a.0, view_of a.1) (b.0, view_of b.1))

  -- `sortWorkflowitems`
  unfoldable pub sort_workflowitems : List T → List T
  unfolding sort by_ordering_criteria
  sort_workflowitems workflowitems = items (sort precedes (indexed 0 workflowitems))
