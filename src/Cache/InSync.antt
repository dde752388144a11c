-- ===== src/Cache/InSync.antt =====
-- `updateCache` of api/src/service/cache2.ts brings a stream up to date, by what is new in it or by a
-- rebuild.
use mathlib.Core.List.{append-nil}
use tru_budget.Base.{
  ℕ, ◌+◌, ◌-◌, ◌<◌, ◌≡◌, ◌≢◌, refl, sym, ap, ◌∙◌, subst, inl, inr, String, Bool, true, false,
  Option, none, some, List, [], ◌∷◌, ◌++◌, if◌then◌else◌, arith, length, take, drop,
  drop-length-append, length-append, includes, Bool-cases, ===_self,
}
use tru_budget.Dict.{lookup, lookup-insert_self, lookup-insert_ne}
use tru_budget.Joi.{Joi}
use tru_budget.Cache.{StreamCursor, Cache2, kept_streams, events_of}
use tru_budget.Cache.Parse.{Item, Parsers}
use tru_budget.Cache.Refresh.{
  Run, done, Node, last_txid, start_after, is_rebuild_from, is_hit, find_start_index, take_in,
  refresh_missed, refresh_stream,
}
use tru_budget.Cache.Batches.{Serves}
use tru_budget.Cache.Misses.{
  eqb_iff, eqb_ne, last_txid-append, item_at_cursor, refresh_missed-takes,
}
use tru_budget.Cache.Streams.{
  valid_events, valid_events-append, stored-events, stored-others, take_in-state, take_in-events,
}

-- The cache has read the items of the stream, all of them, and keeps their events where it keeps any.
pub record InSync (parsers : Parsers) (name : String) (items : List Item) (cache : Cache2)
    : Type 0 where
  pub cursor : StreamCursor
  pub known : lookup name cache.stream_state ≡ some cursor
  pub index : cursor.index + 1 ≡ length items
  pub txid : last_txid items ≡ done cursor.txid
  pub events : includes kept_streams name ≡ true → events_of cache name ≡ valid_events parsers items

-- How the stream may have changed since: it has grown, or another length shows that it was replaced
-- and the item at the cursor is another one.
pub data Follows (cursor : StreamCursor) (old new : List Item) : Type 0 where
  grown : (rest : List Item) → new ≡ old ++ rest → Follows cursor old new
  replaced :
      length old ≢ length new
      → start_after cursor (take 1 (drop cursor.index new)) ≡ 0
      → Follows cursor old new

-- What a refresh may start from: a stream that was not read before, or that has changed since.
pub data Known (parsers : Parsers) (name : String) (new : List Item) (cache : Cache2) : Type 0 where
  unread : lookup name cache.stream_state ≡ none → Known parsers name new cache
  read_before :
      (old : List Item) (was : InSync parsers name old cache)
      → Follows was.cursor old new
      → Known parsers name new cache

module _ (joi : Joi) (parsers : Parsers) (node : Node) (chain : String → List Item)
    (serves : Serves node chain) (fuel : ℕ) (name : String)
    (enough : length (chain name) < fuel) where
  abbrev items : List Item
  items = chain name

  -- The cursors and the stored events of the other streams are as they were.
  abbrev pub Apart : Cache2 → Cache2 → Type 0
  Apart before after =
      (j : String)
      → name ≢ j
      → (lookup j after.stream_state ≡ lookup j before.stream_state)
        × (events_of after j ≡ events_of before j)

  abbrev at_end : String → StreamCursor
  at_end t = record { txid = t; index = length items - 1 }

  abbrev taken : Bool → StreamCursor → List Item → Cache2 → Cache2
  taken is_rebuild cursor new cache = take_in joi parsers name is_rebuild cursor new cache

  take_in-Apart :
      (is_rebuild : Bool) (cursor : StreamCursor) (new : List Item) (cache : Cache2)
      → Apart cache (taken is_rebuild cursor new cache)
  take_in-Apart is_rebuild cursor new cache j ne = (
    ap (lookup j) (take_in-state joi parsers name is_rebuild cursor new cache)
        ∙ lookup-insert_ne name j cursor cache.stream_state ne,
    take_in-events joi parsers name is_rebuild cursor new cache j
        ∙ stored-others is_rebuild name j _ _ ne,
  )

  -- What taking the new items in leads to, where they complete the events that are still valid.
  take_in-InSync :
      (is_rebuild : Bool) (cursor : StreamCursor) (new : List Item) (cache : Cache2)
      → cursor.index + 1 ≡ length items
      → last_txid items ≡ done cursor.txid
      → (includes kept_streams name ≡ true
          → (if is_rebuild then [] else events_of cache name) ++ valid_events parsers new
            ≡ valid_events parsers items)
      → InSync parsers name items (taken is_rebuild cursor new cache)
  take_in-InSync is_rebuild cursor new cache at last whole = record {
    cursor = cursor;
    known =
        ap (lookup name) (take_in-state joi parsers name is_rebuild cursor new cache)
        ∙ lookup-insert_self name cursor cache.stream_state;
    index = at;
    txid = last;
    events = λ kept.
        take_in-events joi parsers name is_rebuild cursor new cache name
        ∙ stored-events is_rebuild name (valid_events parsers new) _ kept
        ∙ whole kept;
  }

  pub record Refreshed (cache : Cache2) (run : Run Cache2) : Type 0 where
    pub after : Cache2
    pub returns : run ≡ done after
    pub in_sync : InSync parsers name items after
    pub apart : Apart cache after

  abbrev missed : Cache2 → Run Cache2
  missed cache = refresh_missed joi parsers node fuel name cache

  -- A rebuild, which starts from the first item.
  rebuilt :
      (cache : Cache2) (cursor : Option StreamCursor)
      → lookup name cache.stream_state ≡ cursor
      → find_start_index node name cursor ≡ done 0
      → is_rebuild_from cursor 0 ≡ true
      → 0 < length items
      → Refreshed cache (missed cache)
  rebuilt cache cursor known start fresh h =
      let (t, last, run) =
        refresh_missed-takes joi parsers node chain serves fuel name enough cache 0 cursor known
          start h in
      record {
        after = taken true (at_end t) items cache;
        returns = run ∙ ap (λ b. done (taken b (at_end t) items cache)) fresh;
        in_sync = take_in-InSync true (at_end t) items cache (omega arith) last (λ kept. refl);
        apart = take_in-Apart true (at_end t) items cache;
      }

  -- An update by what is behind the cursor.
  updated :
      (cache : Cache2) (old : List Item) (was : InSync parsers name old cache) (x : Item)
      (xs : List Item)
      → items ≡ old ++ x ∷ xs
      → Refreshed cache (missed cache)
  unfolding find_start_index
  updated cache old was x xs e =
      let (item, at_cursor, same_txid) =
        item_at_cursor was.cursor.index old (x ∷ xs) was.cursor.txid was.index was.txid in
      let start : find_start_index node name (some was.cursor) ≡ done (was.cursor.index + 1) =
        rw (serves name 1 was.cursor.index, e, at_cursor, same_txid, ===_self was.cursor.txid)
          refl in
      let (t, last, run) =
        refresh_missed-takes joi parsers node chain serves fuel name enough cache
          (was.cursor.index + 1) (some was.cursor) was.known start
          (omega (arith, was.index, ap length e, length-append old (x ∷ xs))) in
      let behind : drop (was.cursor.index + 1) items ≡ x ∷ xs =
        rw (was.index, e) (drop-length-append old (x ∷ xs)) in
      let no_rebuild : is_rebuild_from (some was.cursor) (was.cursor.index + 1) ≡ false =
        ground arith in
      record {
        after = taken false (at_end t) (x ∷ xs) cache;
        returns = run ∙ (λ i. done (taken (no_rebuild i) (at_end t) (behind i) cache));
        in_sync =
            take_in-InSync false (at_end t) (x ∷ xs) cache
              (omega (arith, was.index, ap length e, length-append old (x ∷ xs)))
              (ap last_txid e ∙ last_txid-append old x xs ∙ ap last_txid (sym behind) ∙ last)
              (λ kept.
                ap (λ l. l ++ valid_events parsers (x ∷ xs)) (was.events kept)
                ∙ sym (valid_events-append parsers old (x ∷ xs))
                ∙ ap (valid_events parsers) (sym e));
        apart = take_in-Apart false (at_end t) (x ∷ xs) cache;
      }

  at_hit :
      {cursor : Option StreamCursor} {c : StreamCursor} {n : ℕ}
      → cursor ≡ some c
      → is_hit cursor n ≡ true
      → c.index + 1 ≡ n
  at_hit known hit = (eqb_iff _ _).0 (rw known at hit)

  hit_at :
      {cursor : Option StreamCursor} {c : StreamCursor} {n : ℕ}
      → cursor ≡ some c
      → c.index + 1 ≡ n
      → is_hit cursor n ≡ true
  hit_at known e = rw known ((eqb_iff _ _).1 e)

  refresh_missed-Refreshed :
      (cache : Cache2)
      → 0 < length items
      → Known parsers name items cache
      → is_hit (lookup name cache.stream_state) (length items) ≡ false
      → Refreshed cache (missed cache)
  unfolding find_start_index
  refresh_missed-Refreshed cache h (unread new) miss = rebuilt cache none new refl refl h
  refresh_missed-Refreshed cache h (read_before old was (replaced ne e)) miss =
      rebuilt cache (some was.cursor) was.known (rw (serves name 1 was.cursor.index, e) refl)
        (ground arith) h
  refresh_missed-Refreshed cache h (read_before old was (grown (x ∷ xs) e)) miss =
      updated cache old was x xs e
  refresh_missed-Refreshed cache h (read_before old was (grown [] e)) miss =
      let no_rest = ap length (e ∙ append-nil old) in
      cc (hit_at was.known (was.index ∙ sym no_rest))

  -- Where the number of items has not changed, nothing has.
  hit-InSync :
      (cache : Cache2)
      → Known parsers name items cache
      → is_hit (lookup name cache.stream_state) (length items) ≡ true
      → InSync parsers name items cache
  hit-InSync cache (unread new) hit = cc
  hit-InSync cache (read_before old was (replaced ne e)) hit =
      absurd (ne (sym was.index ∙ at_hit was.known hit))
  hit-InSync cache (read_before old was (grown (x ∷ xs) e)) hit =
      absurd
        (omega (arith, at_hit was.known hit, was.index, ap length e, length-append old (x ∷ xs)))
  hit-InSync cache (read_before old was (grown [] e)) hit =
      subst (λ l. InSync parsers name l cache) (sym (append-nil old) ∙ sym e) was

  -- The refresh of a stream that was not read before, that has grown, or that was replaced and has
  -- another length now, returns; the cursor then stands at the last item, the stored events of the
  -- stream are those of its items, whether it was rebuilt or not, and the other streams keep theirs.
  pub refresh_stream-Refreshed :
      (kind : Option String) (cache : Cache2)
      → 0 < length items
      → Known parsers name items cache
      → Refreshed cache (
          refresh_stream joi parsers node fuel
            (record { name = name; kind = kind; items = length items })
            cache)
  unfolding refresh_stream
  refresh_stream-Refreshed kind cache h known =
      rw (eqb_ne (length items) 0 (omega arith))
        (elim (Bool-cases (is_hit (lookup name cache.stream_state) (length items))) [
          | inl hit ↦ rw hit (record {
            after = cache;
            returns = refl;
            in_sync = hit-InSync cache known hit;
            apart = λ j ne. (refl, refl);
          })
          | inr miss ↦ rw miss (refresh_missed-Refreshed cache h known miss)
        ])
