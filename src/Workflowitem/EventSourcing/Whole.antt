-- ===== src/Workflowitem/EventSourcing/Whole.antt =====
-- The schema of the workflowitems that the stream of events builds, their logs included.
use text.Mathlib.Text.{starts_with}
use tru_budget.Base.{
  ◌≡◌, refl, ◌∙◌, inl, inr, ap, String, Bool, true, Option, none, some, List, [], ◌∷◌, ◌++◌, arith,
  all, All, all-append, Bool-cases,
}
use tru_budget.Result.{Failure, Result, ok, err}
use tru_budget.Dict.{Dict}
use tru_budget.Dict.Entries.{Entries, Entries-insert, Entries-lookup}
use tru_budget.Joi.{Joi, if_given}
use tru_budget.Money.{money_amount}
use tru_budget.Event.{
  Status, opened, closed, AmountType, not_applicable, disbursed, allocated, BusinessEvent, type_of,
}
use tru_budget.Event.Checks.{business_event_ok}
use tru_budget.Workflowitem.{Workflowitem, money_field_ok, trace_event_ok, schema}
use tru_budget.Workflowitem.EventSourcing.{
  new_trace_event, source_event, recorded, source_step, source_from, source_workflowitems,
}
use tru_budget.Workflowitem.EventSourcing.Keeps.{IsValid, new_workflowitem_from_event-Keeps}
use tru_budget.Workflowitem.EventSourcing.Invariant.{Origin, changed, created, source_event-Origin}

module _ (joi : Joi) where
  -- The schema is that of the workflowitem with its log emptied, and that of the log.
  schema-IsValid :
      (p : Workflowitem)
      → schema joi p ≡ true
      → IsValid joi p × (all (trace_event_ok joi) p.log ≡ true)
  unfolding schema
  schema-IsValid p h = (ground arith, ground arith)

  IsValid-schema :
      (p : Workflowitem)
      → IsValid joi p
      → all (trace_event_ok joi) p.log ≡ true
      → schema joi p ≡ true
  unfolding schema
  IsValid-schema p valid log = rw log valid

  -- A money field whose test implies that it is a text is one where it is given.
  field_text :
      (p : String → Bool) (type : AmountType) (status : Status) (field : Option String)
      → ((s : String) → p s ≡ true → joi.string s ≡ true)
      → money_field_ok p type status field ≡ true
      → if_given joi.string field ≡ true
  field_text p type status none text h = refl
  field_text p not_applicable status (some s) text h = cc
  field_text p disbursed closed (some s) text h = text s h
  field_text p disbursed opened (some s) text h = text s h
  field_text p allocated closed (some s) text h = text s h
  field_text p allocated opened (some s) text h = text s h

  amount_text : (s : String) → money_amount joi s ≡ true → joi.string s ≡ true
  unfolding money_amount
  amount_text s h = ground arith

  trace_ok :
      (p : Workflowitem) (event : BusinessEvent)
      → IsValid joi p
      → business_event_ok joi event ≡ true
      → trace_event_ok joi (new_trace_event p event) ≡ true
  unfolding schema trace_event_ok
  trace_ok p event valid fine =
      let amount : if_given joi.string p.amount ≡ true =
        field_text (money_amount joi) p.amount_type p.status p.amount amount_text (ground arith) in
      let currency : if_given joi.string p.currency ≡ true =
        field_text joi.string p.amount_type p.status p.currency (λ s h. h) (ground arith) in
      ground arith

  abbrev IsLogged : Workflowitem → Type 0
  IsLogged p = IsValid joi p × (all (trace_event_ok joi) p.log ≡ true)

  -- Each workflowitem is kept under its own ID and passes the schema, its log included.
  abbrev pub IsWhole : Dict Workflowitem → Type 0
  IsWhole = Entries (λ id p. (p.id ≡ id) × (schema joi p ≡ true))

  Origin-IsLogged :
      {event : BusinessEvent} {items : Dict Workflowitem} {p : Workflowitem}
      → IsWhole items
      → Origin joi event items p
      → IsLogged p
  Origin-IsLogged {items = items} whole (changed id old has found e) =
      let (kept, valid) = new_workflowitem_from_event-Keeps joi old _ e in
      let passes =
        (Entries-lookup (λ i v. (v.id ≡ i) × (schema joi v ≡ true)) id old items whole found).1 in
      (valid, ap (all (trace_event_ok joi)) kept.log ∙ (schema-IsValid old passes).1)
  Origin-IsLogged whole (created header place initial e same valid) =
      (valid, ap (λ (p : Workflowitem). all (trace_event_ok joi) p.log) same)

  stored-schema :
      (event : BusinessEvent) (p : Workflowitem)
      → business_event_ok joi event ≡ true
      → IsLogged p
      → schema joi (record p { log = p.log ++ new_trace_event p event ∷ [] }) ≡ true
  stored-schema event p fine (valid, logged) =
      IsValid-schema (record p { log = p.log ++ new_trace_event p event ∷ [] }) valid
        (all-append (trace_event_ok joi) p.log _ logged (rw (trace_ok p event valid fine) refl))

  recorded-IsWhole :
      (event : BusinessEvent) (r : Result Workflowitem) (items : Dict Workflowitem)
      (errors : List Failure)
      → business_event_ok joi event ≡ true
      → source_event joi event items ≡ r
      → IsWhole items
      → IsWhole (recorded joi event r (items, errors)).0
  recorded-IsWhole event (err e) items errors fine h whole = whole
  recorded-IsWhole event (ok p) items errors fine h whole =
      Entries-insert (λ id v. (v.id ≡ id) × (schema joi v ≡ true)) p.id _ items
        (
          refl,
          stored-schema event p fine
              (Origin-IsLogged whole (source_event-Origin joi event items h)),
        )
        whole

  source_step-IsWhole :
      (event : BusinessEvent) (items : Dict Workflowitem) (errors : List Failure)
      → business_event_ok joi event ≡ true
      → IsWhole items
      → IsWhole (source_step joi event (items, errors)).0
  unfolding source_step
  source_step-IsWhole event items errors fine whole =
      elim (Bool-cases (starts_with (type_of event) "workflowitem_")) [
        | inl relevant ↦
            rw relevant
              (recorded-IsWhole event (source_event joi event items) items errors fine refl whole)
        | inr other ↦ rw other whole
      ]

  source_from-IsWhole :
      (events : List BusinessEvent) (items : Dict Workflowitem) (errors : List Failure)
      → All (λ event. business_event_ok joi event ≡ true) events
      → IsWhole items
      → IsWhole (source_from joi events (items, errors)).0
  unfolding source_from
  source_from-IsWhole [] items errors fine whole = whole
  source_from-IsWhole (event ∷ events) items errors fine whole =
      source_from-IsWhole events _ _ fine.1 (source_step-IsWhole event items errors fine.0 whole)

  -- Where each event of the stream passes the schema that the trace events use for events, each
  -- workflowitem that the stream leaves is kept under its own ID and passes the whole schema, its log
  -- included, if that holds of the workflowitems that it starts from.
  pub source_workflowitems-IsWhole :
      (events : List BusinessEvent) (origin : Dict Workflowitem)
      → All (λ event. business_event_ok joi event ≡ true) events
      → IsWhole origin
      → IsWhole (source_workflowitems joi events origin).0
  unfolding source_workflowitems
  source_workflowitems-IsWhole events origin fine whole =
      source_from-IsWhole events origin [] fine whole
