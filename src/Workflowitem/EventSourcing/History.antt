-- ===== src/Workflowitem/EventSourcing/History.antt =====
-- One workflowitem through the stream of events.
use mathlib.Core.List.{append_assoc, append-nil}
use text.Mathlib.Text.{starts_with}
use tru_budget.Base.{
  ◌≡◌, refl, sym, subst, ◌∙◌, inl, inr, ap, String, some, List, [], ◌∷◌, ◌++◌, Bool-cases, All,
  ===_cases,
}
use tru_budget.Result.{Failure, Result, ok, err}
use tru_budget.Dict.{Dict, lookup, lookup-insert_self, lookup-insert_ne}
use tru_budget.Dict.Entries.{Entries-lookup}
use tru_budget.Joi.{Joi}
use tru_budget.Event.{
  StaysClosed, StaysClosed-refl, StaysClosed-trans, Header, SubprojectPlace,
  WorkflowitemInitialData, BusinessEvent, workflowitem_created, type_of,
}
use tru_budget.Workflowitem.{Workflowitem, TraceEvent}
use tru_budget.Workflowitem.EventSourcing.{
  source_event, recorded, store, new_trace_event, source_step, source_from, source_workflowitems,
}
use tru_budget.Workflowitem.EventSourcing.Mutations.{Keeps, Extends, Extends-trans}
use tru_budget.Workflowitem.EventSourcing.Keeps.{IsValid, new_workflowitem_from_event-Keeps}
use tru_budget.Workflowitem.EventSourcing.Invariant.{
  Origin, changed, created, source_event-Origin, IsSourced, source_step-IsSourced,
}

-- What the stream leaves of a workflowitem: only the log may grow.
pub record Follows (w w' : Workflowitem) : Type 0 where
  pub id : w'.id ≡ w.id
  pub subproject_id : w'.subproject_id ≡ w.subproject_id
  pub created_at : w'.created_at ≡ w.created_at
  pub workflowitem_type : w'.workflowitem_type ≡ w.workflowitem_type
  pub documents : Extends w.documents w'.documents
  pub stays_closed : StaysClosed w.status w'.status
  pub log : (later : List TraceEvent) × (w'.log ≡ w.log ++ later)

-- The event creates a workflowitem with this ID.
abbrev pub Creates : BusinessEvent → String → Type 0
Creates event id =
    (header : Header) × (place : SubprojectPlace) × (initial : WorkflowitemInitialData) × (event
      ≡ workflowitem_created header place initial)
    × (initial.id ≡ id)

Follows-refl : (w : Workflowitem) → Follows w w
Follows-refl w = record {
  id = refl;
  subproject_id = refl;
  created_at = refl;
  workflowitem_type = refl;
  documents = ([], sym (append-nil w.documents));
  stays_closed = StaysClosed-refl w.status;
  log = ([], sym (append-nil w.log));
}

Follows-trans : (u v w : Workflowitem) → Follows u v → Follows v w → Follows u w
Follows-trans u v w a b = record {
  id = b.id ∙ a.id;
  subproject_id = b.subproject_id ∙ a.subproject_id;
  created_at = b.created_at ∙ a.created_at;
  workflowitem_type = b.workflowitem_type ∙ a.workflowitem_type;
  documents = Extends-trans u.documents v.documents w.documents a.documents b.documents;
  stays_closed = StaysClosed-trans u.status v.status w.status a.stays_closed b.stays_closed;
  log = (
    a.log.0 ++ b.log.0,
    b.log.1 ∙ ap (λ l. l ++ b.log.0) a.log.1 ∙ append_assoc u.log a.log.0 b.log.0,
  );
}

Keeps-Follows :
    (w v : Workflowitem) (e : TraceEvent)
    → Keeps w v
    → Follows w (record v { log = v.log ++ e ∷ [] })
Keeps-Follows w v e k = record {
  id = k.id;
  subproject_id = k.subproject_id;
  created_at = k.created_at;
  workflowitem_type = k.workflowitem_type;
  documents = k.documents;
  stays_closed = k.stays_closed;
  log = (e ∷ [], ap (λ l. l ++ e ∷ []) k.log);
}

-- The workflowitem under this ID is there and follows from the given one.
abbrev pub Followed : String → Workflowitem → Dict Workflowitem → Type 0
Followed id w items = (w' : Workflowitem) × (lookup id items ≡ some w') × Follows w w'

some-eq : {v w : Workflowitem} → some v ≡ some w → v ≡ w
some-eq e = cc

module _ (joi : Joi) (id : String) where
  stored : BusinessEvent → Workflowitem → Workflowitem
  stored event v = record v { log = v.log ++ new_trace_event v event ∷ [] }

  -- The changed workflowitem has the ID of the one that it came from.
  Origin-Follows :
      (event : BusinessEvent) (items : Dict Workflowitem) (w v : Workflowitem)
      → IsSourced joi items
      → lookup id items ≡ some w
      → ¬ Creates event id
      → v.id ≡ id
      → Origin joi event items v
      → Follows w (stored event v)
  unfolding stored
  Origin-Follows event items w v s found fresh same (changed id' w0 has found0 e) =
      let kept = (new_workflowitem_from_event-Keeps joi w0 event e).0 in
      let own = (Entries-lookup (λ i u. (u.id ≡ i) × IsValid joi u) id' w0 items s found0).0 in
      let one : id' ≡ id = sym own ∙ sym kept.id ∙ same in
      let known : w0 ≡ w = some-eq (sym found0 ∙ ap (λ i. lookup i items) one ∙ found) in
      Keeps-Follows w v (new_trace_event v event) (subst (λ u. Keeps u v) known kept)
  Origin-Follows event items w v s found fresh same (created header place initial e u valid) =
      absurd (fresh (header, place, initial, e, sym (ap (λ (x : Workflowitem). x.id) u) ∙ same))

  store-Followed :
      (event : BusinessEvent) (items : Dict Workflowitem) (w v : Workflowitem)
      → IsSourced joi items
      → lookup id items ≡ some w
      → ¬ Creates event id
      → Origin joi event items v
      → Followed id w (store joi event v items)
  unfolding stored
  store-Followed event items w v s found fresh origin = elim (===_cases v.id id) [
    | inl (same, _) ↦ (
      stored event v,
      subst (λ i. lookup i (store joi event v items) ≡ some (stored event v)) same
          (lookup-insert_self v.id (stored event v) items),
      Origin-Follows event items w v s found fresh same origin,
    )
    | inr (other, _) ↦
        (w, lookup-insert_ne v.id id (stored event v) items other ∙ found, Follows-refl w)
  ]

  recorded-Followed :
      (event : BusinessEvent) (items : Dict Workflowitem) (errors : List Failure) (w : Workflowitem)
      (r : Result Workflowitem)
      → source_event joi event items ≡ r
      → IsSourced joi items
      → lookup id items ≡ some w
      → ¬ Creates event id
      → Followed id w (recorded joi event r (items, errors)).0
  recorded-Followed event items errors w (err e) h s found fresh = (w, found, Follows-refl w)
  recorded-Followed event items errors w (ok v) h s found fresh =
      store-Followed event items w v s found fresh (source_event-Origin joi event items h)

  step-Followed :
      (event : BusinessEvent) (items : Dict Workflowitem) (errors : List Failure) (w : Workflowitem)
      → IsSourced joi items
      → lookup id items ≡ some w
      → ¬ Creates event id
      → Followed id w (source_step joi event (items, errors)).0
  unfolding source_step
  step-Followed event items errors w s found fresh =
      elim (Bool-cases (starts_with (type_of event) "workflowitem_")) [
        | inl relevant ↦ rw relevant (
            recorded-Followed event items errors w (source_event joi event items) refl s found
              fresh)
        | inr other ↦ rw other (w, found, Follows-refl w)
      ]

  source_from-Followed :
      (events : List BusinessEvent) (items : Dict Workflowitem) (errors : List Failure)
      (w : Workflowitem)
      → IsSourced joi items
      → lookup id items ≡ some w
      → All (λ event. ¬ Creates event id) events
      → Followed id w (source_from joi events (items, errors)).0
  unfolding source_from
  source_from-Followed [] items errors w s found fresh = (w, found, Follows-refl w)
  source_from-Followed (event ∷ events) items errors w s found fresh =
      let (v, found', a) = step-Followed event items errors w s found fresh.0 in
      let (u, found'', b) =
        source_from-Followed events _ _ v (source_step-IsSourced joi event items errors s) found'
          fresh.1 in
      (u, found'', Follows-trans w v u a b)

-- In a map of workflowitems that are kept under their own IDs and pass the schema with their logs
-- emptied, one that no event creates again keeps its ID, subproject, time of creation, type and
-- documents through any stream of events, stays closed once it is closed, and its log only grows at
-- the end.
pub source_workflowitems-Followed :
    (joi : Joi) (id : String) (events : List BusinessEvent) (origin : Dict Workflowitem)
    (w : Workflowitem)
    → IsSourced joi origin
    → lookup id origin ≡ some w
    → All (λ event. ¬ Creates event id) events
    → Followed id w (source_workflowitems joi events origin).0
unfolding source_workflowitems
source_workflowitems-Followed joi id events origin w s found fresh =
    source_from-Followed joi id events origin [] w s found fresh
