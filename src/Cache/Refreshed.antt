-- ===== src/Cache/Refreshed.antt =====
-- `updateCache` of api/src/service/cache2.ts over all streams of the node.
use tru_budget.Base.{
  ℕ, ◌<◌, ◌≡◌, ◌≢◌, refl, sym, ap, ◌∙◌, subst, inl, inr, String, List, [], ◌∷◌, arith, length, eqb,
  Bool-cases, All, keep,
}
use tru_budget.Dict.{lookup}
use tru_budget.Joi.{Joi}
use tru_budget.Cache.{Cache2, events_of}
use tru_budget.Cache.Parse.{Item, Parsers}
use tru_budget.Cache.Refresh.{
  Run, done, listed, Node, Stream, listed, refresh_stream, is_cached, update_streams, update_cache,
}
use tru_budget.Cache.Batches.{Serves}
use tru_budget.Cache.Misses.{eqb_pos, eqb_iff}
use tru_budget.Cache.InSync.{InSync, Known, unread, read_before, refresh_stream-Refreshed}

abbrev pub Distinct : List Stream → Type 0
Distinct [] = Unit
Distinct (s ∷ ss) = All (λ t. t.name ≢ s.name) ss × Distinct ss

-- What is known of one stream says nothing of the others.
abbrev SameAt : String → Cache2 → Cache2 → Type 0
SameAt j before after =
    (lookup j after.stream_state ≡ lookup j before.stream_state)
    × (events_of after j ≡ events_of before j)

SameAt-InSync :
    (parsers : Parsers) (j : String) (items : List Item) (before after : Cache2)
    → SameAt j before after
    → InSync parsers j items before
    → InSync parsers j items after
SameAt-InSync parsers j items before after same was = record {
  cursor = was.cursor;
  known = same.0 ∙ was.known;
  index = was.index;
  txid = was.txid;
  events = λ kept. same.1 ∙ was.events kept;
}

SameAt-Known :
    (parsers : Parsers) (j : String) (items : List Item) (before after : Cache2)
    → SameAt j before after
    → Known parsers j items before
    → Known parsers j items after
SameAt-Known parsers j items before after same (unread new) = unread (same.0 ∙ new)
SameAt-Known parsers j items before after same (read_before old was follows) =
    read_before old
      (record {
        cursor = was.cursor;
        known = same.0 ∙ was.known;
        index = was.index;
        txid = was.txid;
        events = λ kept. same.1 ∙ was.events kept;
      })
      follows

module _ (joi : Joi) (parsers : Parsers) (node : Node) (chain : String → List Item)
    (serves : Serves node chain) (fuel : ℕ) where
  -- A stream's entry tells its length, the fuel is above it, and if it has items then it is new to the
  -- cache or follows what the cache has read.
  pub record Ready (cache : Cache2) (s : Stream) : Type 0 where
    pub count : s.items ≡ length (chain s.name)
    pub enough : length (chain s.name) < fuel
    pub known : 0 < length (chain s.name) → Known parsers s.name (chain s.name) cache

  abbrev pub Current : Cache2 → Stream → Type 0
  Current cache s = 0 < length (chain s.name) → InSync parsers s.name (chain s.name) cache

  record One (cache : Cache2) (s : Stream) : Type 0 where
    after : Cache2
    returns : refresh_stream joi parsers node fuel s cache ≡ done after
    current : Current after s
    apart : (j : String) → s.name ≢ j → SameAt j cache after

  refresh_single : (cache : Cache2) (s : Stream) → Ready cache s → One cache s
  unfolding refresh_stream
  refresh_single cache s ready = elim (Bool-cases (eqb s.items 0)) [
    | inl none_there ↦
        let empty = (eqb_iff _ _).0 none_there in
        record {
          after = cache;
          returns = rw none_there refl;
          current = λ some_there. absurd (omega (arith, empty, ready.count));
          apart = λ j ne. (refl, refl);
        }
    | inr some_there ↦
        let some_item : 0 < length (chain s.name) =
          omega (arith, ready.count, eqb_pos s.items some_there) in
        let result =
          refresh_stream-Refreshed joi parsers node chain serves fuel s.name ready.enough s.kind
            cache some_item (ready.known some_item) in
        record {
          after = result.after;
          returns =
              ap
                (λ n.
                  refresh_stream joi parsers node fuel
                    (record { name = s.name; kind = s.kind; items = n }) cache)
                ready.count
              ∙ result.returns;
          current = λ _. result.in_sync;
          apart = result.apart;
        }
  ]

  Ready-apart :
      (before after : Cache2) (s t : Stream)
      → ((j : String) → s.name ≢ j → SameAt j before after)
      → t.name ≢ s.name
      → Ready before t
      → Ready after t
  Ready-apart before after s t apart ne ready = record {
    count = ready.count;
    enough = ready.enough;
    known = λ some_there.
        SameAt-Known parsers t.name (chain t.name) before after (apart t.name (λ e. ne (sym e)))
          (ready.known some_there);
  }

  Ready-others :
      (before after : Cache2) (s : Stream) (ss : List Stream)
      → ((j : String) → s.name ≢ j → SameAt j before after)
      → All (λ t. t.name ≢ s.name) ss
      → All (Ready before) ss
      → All (Ready after) ss
  Ready-others before after s [] apart ne ready = tt
  Ready-others before after s (t ∷ ts) apart ne ready = (
    Ready-apart before after s t apart ne.0 ready.0,
    Ready-others before after s ts apart ne.1 ready.1,
  )

  pub record Updated (cache : Cache2) (ss : List Stream) (run : Cache2 × Run (Unit {0}))
      : Type 0 where
    pub after : Cache2
    pub returns : run ≡ (after, done tt)
    pub current : All (Current after) ss
    pub untouched : (j : String) → All (λ t. t.name ≢ j) ss → SameAt j cache after

  -- Every stream of the list is brought up to date.
  pub update_streams-Updated :
      (ss : List Stream) (cache : Cache2)
      → Distinct ss
      → All (Ready cache) ss
      → Updated cache ss (update_streams joi parsers node fuel ss cache)
  unfolding update_streams
  update_streams-Updated [] cache distinct ready = record {
    after = cache;
    returns = refl;
    current = tt;
    untouched = λ j ne. (refl, refl);
  }
  update_streams-Updated (s ∷ ss) cache distinct ready =
      let one = refresh_single cache s ready.0 in
      let rest =
        update_streams-Updated ss one.after distinct.1
          (Ready-others cache one.after s ss one.apart distinct.0 ready.1) in
      record {
        after = rest.after;
        returns = rw one.returns rest.returns;
        current = (
          λ some_there.
              SameAt-InSync parsers s.name (chain s.name) one.after rest.after
                (rest.untouched s.name distinct.0) (one.current some_there),
          rest.current,
        );
        untouched = λ j ne.
            let first = one.apart j ne.0 in
            let then = rest.untouched j ne.1 in (then.0 ∙ first.0, then.1 ∙ first.1);
      }

  -- A refresh of the whole cache ends without an exception, on these conditions. The node's answers
  -- come from one chain; no two streams of a kind that is cached have one name. Of each of these the
  -- entry tells the number of items, which is below the fuel; and if it has items it was not read
  -- before, or was read to its end and has grown or is the same since, or has then been replaced by a
  -- stream of another length with another item at the cursor. Each of these streams that has items is
  -- then read to its end, and its events, if the cache keeps those of a stream of its name, are those
  -- of all its items.
  pub update_cache-Updated :
      (ss : List Stream) (cache : Cache2)
      → node.streams ≡ done ss
      → Distinct (keep (λ s. is_cached s.kind) ss)
      → All (Ready cache) (keep (λ s. is_cached s.kind) ss)
      → Updated cache (keep (λ s. is_cached s.kind) ss) (update_cache joi parsers node fuel cache)
  unfolding update_cache
  update_cache-Updated ss cache answer distinct ready =
      let kept = keep (λ s. is_cached s.kind) ss in
      subst (λ r. Updated cache kept (listed joi parsers node fuel r cache)) (sym answer)
        (update_streams-Updated kept cache distinct ready)
