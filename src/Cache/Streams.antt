-- ===== src/Cache/Streams.antt =====
-- What taking in the items of one stream does to the cursors and to the stored events of
-- api/src/service/cache2.ts.
use mathlib.Core.List.{append_assoc}
use tru_budget.Base.{
  ◌≡◌, refl, sym, ap, ◌∙◌, inl, inr, String, Bool, true, false, List, [], ◌∷◌, ◌++◌, ◌===◌,
  if◌then◌else◌, includes, ◌≢◌, ===_self, ===_eq, ===_cases, Bool-cases, arith,
}
use tru_budget.Result.{Result, ok, err}
use tru_budget.Dict.{Dict, lookup_or, lookup_or_eq, insert, remove, lookup-insert, lookup-remove}
use tru_budget.Joi.{Joi}
use tru_budget.Event.{BusinessEvent}
use tru_budget.Workflowitem.{Workflowitem}
use tru_budget.Subproject.{Subproject}
use tru_budget.Project.{Project}
use tru_budget.Cache.{StreamCursor, Cache2, kept_streams, events_of, add_events_to_cache}
use tru_budget.Cache.Parse.{Item, Parsers, parse_item, defined, parse_business_events, filter_ok}
use tru_budget.Cache.Aggregates.{
  cache_projects, cache_subprojects, cache_workflowitems, update_aggregates,
}
use tru_budget.Cache.Refresh.{forget_if, take_in}

-- The events that the items of a stream hold.
abbrev pub valid_events : Parsers → List Item → List BusinessEvent
valid_events parsers items = filter_ok (parse_business_events parsers items)

filter_ok-append :
    (rs ss : List (Result BusinessEvent)) → filter_ok (rs ++ ss) ≡ filter_ok rs ++ filter_ok ss
unfolding filter_ok
filter_ok-append [] ss = refl
filter_ok-append (ok e ∷ rs) ss = ap (λ l. e ∷ l) (filter_ok-append rs ss)
filter_ok-append (err e ∷ rs) ss = filter_ok-append rs ss

parse_business_events-append :
    (parsers : Parsers) (xs ys : List Item)
    → parse_business_events parsers (xs ++ ys)
      ≡ parse_business_events parsers xs ++ parse_business_events parsers ys
unfolding parse_business_events
parse_business_events-append parsers [] ys = refl
parse_business_events-append parsers (x ∷ xs) ys =
    ap (λ l. defined parsers (parse_item parsers x.json) ++ l)
      (parse_business_events-append parsers xs ys)
    ∙ sym (append_assoc (defined parsers (parse_item parsers x.json)) _ _)

pub valid_events-append :
    (parsers : Parsers) (xs ys : List Item)
    → valid_events parsers (xs ++ ys) ≡ valid_events parsers xs ++ valid_events parsers ys
valid_events-append parsers xs ys =
    ap filter_ok (parse_business_events-append parsers xs ys) ∙ filter_ok-append _ _

-- The aggregates are apart from the cursors, the stored events and the lock.
pub record SameStreams (before after : Cache2) : Type 0 where
  pub state : after.stream_state ≡ before.stream_state
  pub events : after.events_by_stream ≡ before.events_by_stream
  pub lock : after.is_write_locked ≡ before.is_write_locked

SameStreams-trans : (a b c : Cache2) → SameStreams a b → SameStreams b c → SameStreams a c
SameStreams-trans a b c p q = record {
  state = q.state ∙ p.state;
  events = q.events ∙ p.events;
  lock = q.lock ∙ p.lock;
}

same : (c : Cache2) → SameStreams c c
same c = record { state = refl; events = refl; lock = refl }

cache_projects-SameStreams : (ps : List Project) (c : Cache2) → SameStreams c (cache_projects ps c)
unfolding cache_projects
cache_projects-SameStreams [] c = same c
cache_projects-SameStreams (p ∷ ps) c =
    SameStreams-trans c _ _ (record { state = refl; events = refl; lock = refl })
      (cache_projects-SameStreams ps _)

cache_subprojects-SameStreams :
    (ss : List Subproject) (c : Cache2) → SameStreams c (cache_subprojects ss c)
unfolding cache_subprojects
cache_subprojects-SameStreams [] c = same c
cache_subprojects-SameStreams (s ∷ ss) c =
    SameStreams-trans c _ _ (record { state = refl; events = refl; lock = refl })
      (cache_subprojects-SameStreams ss _)

cache_workflowitems-SameStreams :
    (ws : List Workflowitem) (c : Cache2) → SameStreams c (cache_workflowitems ws c)
unfolding cache_workflowitems
cache_workflowitems-SameStreams [] c = same c
cache_workflowitems-SameStreams (w ∷ ws) c =
    SameStreams-trans c _ _ (record { state = refl; events = refl; lock = refl })
      (cache_workflowitems-SameStreams ws _)

pub update_aggregates-SameStreams :
    (joi : Joi) (c : Cache2) (es : List BusinessEvent) → SameStreams c (update_aggregates joi c es)
unfolding update_aggregates
update_aggregates-SameStreams joi c es = SameStreams-trans c _ _ (cache_projects-SameStreams _ c) (
    SameStreams-trans _ _ _ (cache_subprojects-SameStreams _ _)
      (cache_workflowitems-SameStreams _ _))

-- The stored events as they are behind `add_events_to_cache`.
abbrev pub stored : String → Bool → List BusinessEvent → Cache2 → Cache2
stored name is_rebuild events cache =
    add_events_to_cache (forget_if is_rebuild name cache) name events

events_of-remove :
    (name j : String) (m : Dict (List BusinessEvent))
    → lookup_or [] j (remove name m) ≡ (if name === j then [] else lookup_or [] j m)
events_of-remove name j m = elim (===_cases name j) [
  | inl (e, t) ↦ rw (t, lookup_or_eq [] j (remove name m), lookup-remove name j m, t) refl
  | inr (ne, t) ↦
      rw (t, lookup_or_eq [] j (remove name m), lookup-remove name j m, t, lookup_or_eq [] j m) refl
]

events_of-insert :
    (name j : String) (es : List BusinessEvent) (m : Dict (List BusinessEvent))
    → lookup_or [] j (insert name es m) ≡ (if name === j then es else lookup_or [] j m)
events_of-insert name j es m = elim (===_cases name j) [
  | inl (e, t) ↦ rw (t, lookup_or_eq [] j (insert name es m), lookup-insert name j es m, t) refl
  | inr (ne, t) ↦
      rw
        (t, lookup_or_eq [] j (insert name es m), lookup-insert name j es m, t, lookup_or_eq [] j m)
        refl
]

forget_if-events :
    (is_rebuild : Bool) (name j : String) (c : Cache2)
    → events_of (forget_if is_rebuild name c) j
      ≡ (if is_rebuild then (if name === j then [] else events_of c j) else events_of c j)
forget_if-events true name j c = events_of-remove name j c.events_by_stream
forget_if-events false name j c = refl

-- A stream whose events are kept has them behind those that are still valid.
pub stored-events :
    (is_rebuild : Bool) (name : String) (es : List BusinessEvent) (c : Cache2)
    → includes kept_streams name ≡ true
    → events_of (stored name is_rebuild es c) name
      ≡ (if is_rebuild then [] else events_of c name) ++ es
unfolding add_events_to_cache
stored-events is_rebuild name es c kept = rw kept (
    events_of-insert name name _ _
    ∙ rw (===_self name)
        (ap (λ l. l ++ es) (forget_if-events is_rebuild name name c ∙ rw (===_self name) refl)))

-- The other streams keep theirs.
pub stored-others :
    (is_rebuild : Bool) (name j : String) (es : List BusinessEvent) (c : Cache2)
    → name ≢ j
    → events_of (stored name is_rebuild es c) j ≡ events_of c j
unfolding add_events_to_cache
stored-others is_rebuild name j es c ne = elim (Bool-cases (includes kept_streams name)) [
  | inl kept ↦ rw kept (events_of-insert name j _ _ ∙ rw other (still is_rebuild))
  | inr not_kept ↦ rw not_kept (still is_rebuild)
]
  where
    other : (name === j) ≡ false
    other = ground (arith, ===_eq name j)

    still : (b : Bool) → events_of (forget_if b name c) j ≡ events_of c j
    still b =
        forget_if-events b name j c
        ∙ elim (Bool-cases b) [ inl t ↦ rw (t, other) refl | inr f ↦ rw f refl ]

stored-state :
    (is_rebuild : Bool) (name : String) (es : List BusinessEvent) (c : Cache2)
    → (stored name is_rebuild es c).stream_state ≡ c.stream_state
unfolding add_events_to_cache
stored-state is_rebuild name es c = elim (Bool-cases (includes kept_streams name)) [
  | inl kept ↦ rw kept (forgotten is_rebuild)
  | inr not_kept ↦ rw not_kept (forgotten is_rebuild)
]
  where
    forgotten : (b : Bool) → (forget_if b name c).stream_state ≡ c.stream_state
    forgotten true = refl
    forgotten false = refl

module _ (joi : Joi) (parsers : Parsers) where
  module _ (name : String) (is_rebuild : Bool) (cursor : StreamCursor) (items : List Item) where
    pub take_in-state :
        (c : Cache2)
        → (take_in joi parsers name is_rebuild cursor items c).stream_state
          ≡ insert name cursor c.stream_state
    unfolding take_in
    take_in-state c =
        (update_aggregates-SameStreams joi _ _).state
        ∙ stored-state is_rebuild name _
            (record c { stream_state = insert name cursor c.stream_state })

    pub take_in-events :
        (c : Cache2) (j : String)
        → events_of (take_in joi parsers name is_rebuild cursor items c) j
          ≡ events_of
              (stored name is_rebuild
                (valid_events parsers items)
                (record c { stream_state = insert name cursor c.stream_state }))
              j
    unfolding take_in
    take_in-events c j = ap (lookup_or [] j) (update_aggregates-SameStreams joi _ _).events
