-- ===== src/Cache/Misses.antt =====
-- A miss in `updateCache`, api/src/service/cache2.ts: what is read from the node and taken in.
use tru_budget.Base.{
  ℕ, zero, suc, ◌+◌, ◌-◌, ◌<◌, ◌≡◌, ◌≢◌, refl, ap, ◌∙◌, inl, inr, ◌↔◌, String, Bool, true, false,
  Option, List, [], ◌∷◌, ◌++◌, arith, length, take, drop, length-drop, eqb, Bool-cases,
}
use tru_budget.Dict.{lookup}
use tru_budget.Joi.{Joi}
use tru_budget.Cache.{StreamCursor, Cache2}
use tru_budget.Cache.Parse.{Item, Parsers}
use tru_budget.Cache.Refresh.{
  done, Node, last_txid, is_rebuild_from, find_start_index, finish_stream, take_in, refresh_missed,
}
use tru_budget.Cache.Batches.{Serves, read, read_batches-reads, List-cases}

pub eqb_iff : (a b : ℕ) → (eqb a b ≡ true) ↔ (a ≡ b)
eqb_iff a b = ground arith

pub eqb_pos : (a : ℕ) → eqb a 0 ≡ false → 0 < a
eqb_pos a h = ground arith

pub eqb_ne : (a b : ℕ) → a ≢ b → eqb a b ≡ false
eqb_ne a b ne = ground arith

pub last_txid-cons : (x : Item) (xs : List Item) → (t : String) × (last_txid (x ∷ xs) ≡ done t)
last_txid-cons x [] = (x.txid, refl)
last_txid-cons x (y ∷ ys) = last_txid-cons y ys

pub last_txid-append :
    (xs : List Item) (y : Item) (ys : List Item) → last_txid (xs ++ y ∷ ys) ≡ last_txid (y ∷ ys)
last_txid-append [] y ys = refl
last_txid-append (x ∷ []) y ys = refl
last_txid-append (x ∷ x' ∷ xs) y ys = last_txid-append (x' ∷ xs) y ys

pub done-injective : {s t : String} → done s ≡ done t → s ≡ t
done-injective e = ap (λ r. elim r [ done v ↦ v | _ ↦ "" ]) e

-- The item at the cursor is the last one that was read.
pub item_at_cursor :
    (i : ℕ) (old rest : List Item) (t : String)
    → i + 1 ≡ length old
    → last_txid old ≡ done t
    → (item : Item) × (take 1 (drop i (old ++ rest)) ≡ item ∷ []) × (item.txid ≡ t)
item_at_cursor i [] rest t h e = absurd (omega arith)
item_at_cursor zero (x ∷ []) rest t h e = (x, refl, done-injective e)
item_at_cursor zero (x ∷ y ∷ ys) rest t h e = absurd (omega arith)
item_at_cursor (suc i) (x ∷ []) rest t h e = absurd (omega arith)
item_at_cursor (suc i) (x ∷ y ∷ ys) rest t h e = item_at_cursor i (y ∷ ys) rest t (omega arith) e

pub finish_stream-takes :
    (joi : Joi) (parsers : Parsers) (node : Node) (fuel : ℕ) (name : String) (is_rebuild : Bool)
    (cache : Cache2) (first : ℕ) (new_items : List Item) (t : String)
    → 0 < first
    → 0 < length new_items
    → last_txid new_items ≡ done t
    → finish_stream joi parsers node fuel name is_rebuild cache (read first new_items)
      ≡ done (
          take_in joi parsers name is_rebuild
            (record { txid = t; index = first - 1 })
            new_items
            cache)
finish_stream-takes joi parsers node fuel name is_rebuild cache first new_items t f l last =
    rw (eqb_ne (length new_items) 0 (omega arith), eqb_ne first 0 (omega arith))
      (elim (Bool-cases is_rebuild) [ inl b ↦ rw (b, last) refl | inr b ↦ rw (b, last) refl ])

module _ (joi : Joi) (parsers : Parsers) (node : Node) (chain : String → List Item)
    (serves : Serves node chain) (fuel : ℕ) (name : String)
    (enough : length (chain name) < fuel) where
  abbrev items : List Item
  items = chain name

  -- A miss takes in what is behind the start index.
  pub refresh_missed-takes :
      (cache : Cache2) (first : ℕ) (cursor : Option StreamCursor)
      → lookup name cache.stream_state ≡ cursor
      → find_start_index node name cursor ≡ done first
      → first < length items
      → (t : String) × (last_txid (drop first items) ≡ done t)
        × (refresh_missed joi parsers node fuel name cache
            ≡ done (
                take_in joi parsers name
                  (is_rebuild_from cursor first)
                  (record { txid = t; index = length items - 1 })
                  (drop first items)
                  cache))
  unfolding refresh_missed
  refresh_missed-takes cache first cursor known start h = elim (List-cases (drop first items)) [
    | inl e ↦ absurd (omega (arith, ap length e, length-drop first items))
    | inr (x, xs, e) ↦
        let (t, last) = last_txid-cons x xs in
        let size = length-drop first items (omega arith) in
        let left : 0 < length (drop first items) = omega (arith, ap length e) in
        (
          t,
          ap last_txid e ∙ last,
          rw
              (
                known,
                start,
                read_batches-reads node chain serves name fuel first [] (omega (arith, size)),
                size,
              )
              (finish_stream-takes joi parsers node fuel name (is_rebuild_from cursor first) cache
                (length items) (drop first items) t (omega arith) left (ap last_txid e ∙ last)),
        )
  ]
