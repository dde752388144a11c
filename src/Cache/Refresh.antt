-- ===== src/Cache/Refresh.antt =====
-- `updateCache` of api/src/service/cache2.ts with `findStartIndex`. The chain's node, which answers
-- the calls of the RPC client, is a parameter. The batch loop runs on fuel.
use tru_budget.Base.{
  ℕ, zero, suc, ◌+◌, ◌-◌, String, Bool, true, false, not, ◌&&◌, ◌||◌, Option, none, some, List, [],
  ◌∷◌, ◌++◌, ◌===◌, if◌then◌else◌, length, includes, eqb, keep,
}
use tru_budget.Result.{Failure, type_error}
use tru_budget.Dict.{lookup, insert, remove}
use tru_budget.Joi.{Joi}
use tru_budget.Cache.{StreamCursor, Cache2, add_events_to_cache}
use tru_budget.Cache.Parse.{Item, Parsers, parse_business_events, filter_ok}
use tru_budget.Cache.Aggregates.{update_aggregates}

-- What a run of the code comes to: a value, an exception, the exit of the process; or the fuel of the
-- model was too little.
pub data Run {ℓ} (T : Type ℓ) : Type ℓ where
  done : (value : T) → Run T
  threw : (failure : Failure) → Run T
  exited out_of_fuel : Run T

infixl 5 ◌>>=◌
abbrev pub ◌>>=◌ {ℓ κ} : {T : Type ℓ} {U : Type κ} → Run T → (T → Run U) → Run U
done value >>= next = next value
threw failure >>= next = threw failure
exited >>= next = exited
out_of_fuel >>= next = out_of_fuel

-- an entry of `liststreams`; `kind` is `details.kind`
pub record Stream : Type 0 where
  pub name : String
  pub kind : Option String
  pub items : ℕ

-- The node: `liststreams`, and `liststreamitems` with its count and its start.
pub record Node : Type 0 where
  pub streams : Run (List Stream)
  pub liststreamitems : String → ℕ → ℕ → Run (List Item)

abbrev pub stream_blacklist : List String
stream_blacklist = "organization" ∷ []

abbrev pub is_cached : Option String → Bool
is_cached none = false
is_cached (some kind) = not (includes stream_blacklist kind)

-- `newItems[newItems.length - 1].txid`: a TypeError where there is no item
abbrev pub last_txid : List Item → Run String
last_txid [] = threw type_error
last_txid (item ∷ []) = done item.txid
last_txid (item ∷ item' ∷ items) = last_txid (item' ∷ items)

-- what `findStartIndex` makes of the items that it is sent
abbrev pub start_after : StreamCursor → List Item → ℕ
start_after cursor [] = 0
start_after cursor (item ∷ []) = if item.txid === cursor.txid then cursor.index + 1 else 0
start_after cursor (_ ∷ _ ∷ _) = 0

abbrev pub batch_size : ℕ
batch_size = 100

-- `cursor === undefined || first !== cursor.index + 1`
abbrev pub is_rebuild_from : Option StreamCursor → ℕ → Bool
is_rebuild_from none first = true
is_rebuild_from (some cursor) first = not (eqb first (cursor.index + 1))

-- `cursor !== undefined && cursor.index === nStreamItems - 1`, where there are items
abbrev pub is_hit : Option StreamCursor → ℕ → Bool
is_hit none n = false
is_hit (some cursor) n = eqb (cursor.index + 1) n

-- `cache.eventsByStream.delete(streamName)` on a rebuild
abbrev pub forget_if : Bool → String → Cache2 → Cache2
forget_if is_rebuild name cache =
    if is_rebuild
    then record cache { events_by_stream = remove name cache.events_by_stream }
    else cache

-- `first` and `newItems` after the loop
pub record Batches : Type 0 where
  pub first : ℕ
  pub new_items : List Item

module _ (node : Node) where
  -- `findStartIndex`
  unfoldable pub find_start_index : String → Option StreamCursor → Run ℕ
  find_start_index name none = done 0
  find_start_index name (some cursor) = do
    items ← node.liststreamitems name 1 cursor.index
    done (start_after cursor items)

  -- the `while` loop of `updateCache`
  unfoldable pub read_batches : ℕ → String → ℕ → List Item → Run Batches
  read_batches zero name first new_items = out_of_fuel
  read_batches (suc fuel) name first new_items =
      node.liststreamitems name batch_size first >>= λ batch. elim batch [
        | [] ↦ done (record { first = first; new_items = new_items })
        | item ∷ items ↦
            read_batches fuel name (first + length (item ∷ items)) (new_items ++ item ∷ items)
      ]

module _ (joi : Joi) (parsers : Parsers) where
  -- the end of the loop's body: the cursor, the events and the aggregates
  unfoldable pub take_in : String → Bool → StreamCursor → List Item → Cache2 → Cache2
  take_in name is_rebuild cursor new_items cache =
      let events = filter_ok (parse_business_events parsers new_items) in
      let moved = record cache { stream_state = insert name cursor cache.stream_state } in
      update_aggregates joi (add_events_to_cache (forget_if is_rebuild name moved) name events)
        events

  module _ (node : Node) (fuel : ℕ) where
    -- the rest of the loop's body, after the batches were read
    abbrev pub finish_stream : String → Bool → Cache2 → Batches → Run Cache2
    finish_stream name is_rebuild cache batches =
        if is_rebuild && (eqb (length batches.new_items) 0 || eqb batches.first 0)
        then exited
        else (do
          txid ← last_txid batches.new_items
          done (
              take_in name is_rebuild (record { txid = txid; index = batches.first - 1 })
                batches.new_items cache))

    -- a miss: the loop's body after the test for a hit
    unfoldable pub refresh_missed : String → Cache2 → Run Cache2
    refresh_missed name cache =
        let cursor = lookup name cache.stream_state in
        find_start_index node name cursor >>= λ first.
        read_batches node fuel name first [] >>= λ batches.
        finish_stream name (is_rebuild_from cursor first) cache batches

    -- the body of the loop over the streams
    unfoldable pub refresh_stream : Stream → Cache2 → Run Cache2
    refresh_stream stream cache =
        if eqb stream.items 0 || is_hit (lookup stream.name cache.stream_state) stream.items
        then done cache
        else refresh_missed stream.name cache

    -- the loop over the streams: on an exception the cache keeps what was changed before
    abbrev pub continued :
        Cache2 → Run Cache2 → (Cache2 → Cache2 × Run (Unit {0})) → Cache2 × Run (Unit {0})
    continued before (done after) next = next after
    continued before (threw failure) next = (before, threw failure)
    continued before exited next = (before, exited)
    continued before out_of_fuel next = (before, out_of_fuel)

    unfoldable pub update_streams : List Stream → Cache2 → Cache2 × Run (Unit {0})
    update_streams [] cache = (cache, done tt)
    update_streams (stream ∷ streams) cache =
        continued cache (refresh_stream stream cache) (λ after. update_streams streams after)

    abbrev pub listed : Run (List Stream) → Cache2 → Cache2 × Run (Unit {0})
    listed (done streams) cache = update_streams (keep (λ s. is_cached s.kind) streams) cache
    listed (threw failure) cache = (cache, threw failure)
    listed exited cache = (cache, exited)
    listed out_of_fuel cache = (cache, out_of_fuel)

    -- `updateCache`
    unfoldable pub update_cache : Cache2 → Cache2 × Run (Unit {0})
    update_cache cache = listed node.streams cache
