-- ===== src/Workflowitem/Ordering/Keys.antt =====
-- The comparison as an order of keys: closed ones by their close time, then those in the ordering
-- by their place, then the others by their time of creation and their index.
use tru_budget.Base.{
  ℕ, ◌≡◌, refl, String, Bool, true, false, Option, none, some, List, [], ◌∷◌, arith, ltb, codes,
  if◌then◌else◌,
}
use tru_budget.Event.{Status, opened, closed}
use tru_budget.Workflowitem.Ordering.{
  ItemView, Comparison, before, after, codes_lt, index_of, is_closed, closed_at, date_comparison,
  by_position, by_state, by_creation_time, by_ordering_criteria, is_before,
}

pub data Key : Type 0 where
  closed_key : (time : List ℕ) → Key
  ordered_key : (place : ℕ) → Key
  dated_key : (created : ℕ) (index : ℕ) → Key

-- The strict order of the keys.
abbrev pub key_lt : Key → Key → Bool
key_lt (closed_key s) (closed_key t) = codes_lt s t
key_lt (closed_key _) (ordered_key _) = true
key_lt (closed_key _) (dated_key _ _) = true
key_lt (ordered_key _) (closed_key _) = false
key_lt (ordered_key i) (ordered_key j) = ltb i j
key_lt (ordered_key _) (dated_key _ _) = true
key_lt (dated_key _ _) (closed_key _) = false
key_lt (dated_key _ _) (ordered_key _) = false
key_lt (dated_key d i) (dated_key e j) =
    if ltb d e then true else if ltb e d then false else if ltb j i then false else true

codes_lt_trans : (s t u : List ℕ) → codes_lt s t ≡ true → codes_lt t u ≡ true → codes_lt s u ≡ true
codes_lt_trans [] [] u h k = cc
codes_lt_trans [] (b ∷ t) [] h k = cc
codes_lt_trans [] (b ∷ t) (c ∷ u) h k = refl
codes_lt_trans (a ∷ s) [] u h k = cc
codes_lt_trans (a ∷ s) (b ∷ t) [] h k = cc
codes_lt_trans (a ∷ s) (b ∷ t) (c ∷ u) h k = ground (arith, codes_lt_trans s t u)

pub codes_lt-asymm : (s t : List ℕ) → codes_lt s t ≡ true → codes_lt t s ≡ false
codes_lt-asymm [] [] h = cc
codes_lt-asymm [] (b ∷ t) h = refl
codes_lt-asymm (a ∷ s) [] h = cc
codes_lt-asymm (a ∷ s) (b ∷ t) h = ground (arith, codes_lt-asymm s t)

pub key_lt_trans : (a b c : Key) → key_lt a b ≡ true → key_lt b c ≡ true → key_lt a c ≡ true
key_lt_trans (closed_key s) (closed_key t) (closed_key u) h k = codes_lt_trans s t u h k
key_lt_trans (dated_key d i) (dated_key e j) (dated_key f l) h k = ground arith
key_lt_trans (ordered_key i) (ordered_key j) (ordered_key l) h k = ground arith
key_lt_trans (closed_key s) (closed_key t) (ordered_key l) h k = refl
key_lt_trans (closed_key s) (closed_key t) (dated_key _ _) h k = refl
key_lt_trans (closed_key s) (ordered_key j) (closed_key u) h k = cc
key_lt_trans (closed_key s) (ordered_key j) (ordered_key l) h k = refl
key_lt_trans (closed_key s) (ordered_key j) (dated_key _ _) h k = refl
key_lt_trans (closed_key s) (dated_key _ _) (closed_key u) h k = cc
key_lt_trans (closed_key s) (dated_key _ _) (ordered_key l) h k = cc
key_lt_trans (closed_key s) (dated_key _ _) (dated_key _ _) h k = refl
key_lt_trans (ordered_key i) (closed_key t) c h k = cc
key_lt_trans (ordered_key i) (ordered_key j) (closed_key u) h k = cc
key_lt_trans (ordered_key i) (ordered_key j) (dated_key _ _) h k = refl
key_lt_trans (ordered_key i) (dated_key _ _) (closed_key u) h k = cc
key_lt_trans (ordered_key i) (dated_key _ _) (ordered_key l) h k = cc
key_lt_trans (ordered_key i) (dated_key _ _) (dated_key _ _) h k = refl
key_lt_trans (dated_key d i) (closed_key t) c h k = cc
key_lt_trans (dated_key d i) (ordered_key j) c h k = cc
key_lt_trans (dated_key d i) (dated_key e j) (closed_key u) h k = cc
key_lt_trans (dated_key d i) (dated_key e j) (ordered_key l) h k = cc

abbrev pub date_or_zero : Option ℕ → ℕ
date_or_zero none = 0
date_or_zero (some d) = d

abbrev pub open_key : Option ℕ → ℕ → ℕ → Key
open_key (some place) created index = ordered_key place
open_key none created index = dated_key created index

abbrev pub key_by : Status → List ℕ → Key → Key
key_by closed time positions = closed_key time
key_by opened time positions = positions

module _ (dates : String → Option ℕ) (ordering : List String) where
  unfoldable pub key : ℕ × ItemView → Key
  key (index, item) =
      key_by item.status (codes (closed_at item))
        (open_key (index_of ordering item.id) (date_or_zero (dates item.created_at)) index)

  -- The time of creation can be read.
  abbrev pub HasDate : ItemView → Type 0
  HasDate item = (d : ℕ) × (dates item.created_at ≡ some d)

  by_position-key :
      (i j : ℕ) (p q : Option ℕ) {c d : Option ℕ} (x y : ℕ)
      → c ≡ some x
      → d ≡ some y
      → is_before (by_position dates ordering i j p q (date_comparison c d))
        ≡ key_lt (open_key p (date_or_zero c) i) (open_key q (date_or_zero d) j)
  by_position-key i j (some p) (some q) x y hc hd = ground arith
  by_position-key i j (some p) none x y hc hd = refl
  by_position-key i j none (some q) x y hc hd = refl
  by_position-key i j none none x y hc hd = rw (hc, hd) (ground arith)

  by_state-key :
      (s t : Status) (u v : List ℕ) (positions : Comparison) (p q : Option ℕ) (c d i j : ℕ)
      → is_before positions ≡ key_lt (open_key p c i) (open_key q d j)
      → is_before (
          by_state dates ordering
            (is_closed s)
            (is_closed t)
            (if codes_lt u v then before else after)
            positions)
        ≡ key_lt (key_by s u (open_key p c i)) (key_by t v (open_key q d j))
  by_state-key closed closed u v positions p q c d i j h = ground arith
  by_state-key closed opened u v positions p (some _) c d i j h = refl
  by_state-key closed opened u v positions p none c d i j h = refl
  by_state-key opened closed u v positions (some _) q c d i j h = refl
  by_state-key opened closed u v positions none q c d i j h = refl
  by_state-key opened opened u v positions p q c d i j h = h

  -- With readable dates, the source's comparison is the order of the keys.
  pub by_ordering_criteria-key :
      (a b : ℕ × ItemView)
      → HasDate a.1
      → HasDate b.1
      → is_before (by_ordering_criteria dates ordering a b) ≡ key_lt (key a) (key b)
  unfolding by_ordering_criteria key by_creation_time
  by_ordering_criteria-key (i, a) (j, b) (x, hx) (y, hy) =
      by_state-key a.status b.status (codes (closed_at a)) (codes (closed_at b)) _
        (index_of ordering a.id) (index_of ordering b.id) (date_or_zero (dates a.created_at))
        (date_or_zero (dates b.created_at)) i j
        (by_position-key i j (index_of ordering a.id) (index_of ordering b.id) x y hx hy)
