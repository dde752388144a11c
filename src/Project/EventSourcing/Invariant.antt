-- ===== src/Project/EventSourcing/Invariant.antt =====
-- The map that the stream of events builds.
use text.Mathlib.Text.{starts_with}
use tru_budget.Base.{
  ◌≡◌, refl, sym, subst, ◌∙◌, inl, inr, ap, String, some, List, [], ◌∷◌, Bool-cases, Option-cases,
}
use tru_budget.Result.{Failure, Result, ok, err, map_err}
use tru_budget.Result.Inversion.{>>=-eq-ok, map_err-eq-ok, Result-cases}
use tru_budget.Dict.{Dict, lookup}
use tru_budget.Dict.Entries.{Entries, Entries-insert}
use tru_budget.Joi.{Joi}
use tru_budget.Event.{Header, ProjectInitialData, BusinessEvent, project_created, type_of}
use tru_budget.Project.{Project}
use tru_budget.Project.Created.{create_from, initial_project}
use tru_budget.Project.EventSourcing.{
  get_project_id, new_project_from_event, get_item, source_creation, source_event, recorded,
  source_step, source_from, source_projects,
}
use tru_budget.Workflowitem.EventSourcing.Mutations.{ok-injective}
use tru_budget.Project.EventSourcing.Keeps.{IsValid, validate-eq-ok, new_project_from_event-Keeps}

-- A successful round came from a known project or from a creation.
pub data Origin (joi : Joi) (event : BusinessEvent) (items : Dict Project) (w' : Project)
    : Type 0 where
  changed :
      (id : String) (w : Project)
      → get_project_id event ≡ ok id
      → lookup id items ≡ some w
      → new_project_from_event joi w event ≡ ok w'
      → Origin joi event items w'
  created :
      (header : Header) (initial : ProjectInitialData)
      → event ≡ project_created header initial
      → w' ≡ initial_project header initial
      → IsValid joi w'
      → Origin joi event items w'

module _ (joi : Joi) where
  get_item-eq-ok :
      (items : Dict Project) (id : String) {w : Project}
      → get_item joi items id ≡ ok w
      → lookup id items ≡ some w
  unfolding get_item
  get_item-eq-ok items id e = elim (Option-cases (lookup id items)) [
    | inl missing ↦ cc (rw (missing, get_item) at e)
    | inr (w, found) ↦ found ∙ ap some (ok-injective (rw (found, get_item) at e))
  ]

  source_creation-Origin :
      (event : BusinessEvent) (items : Dict Project) {w' : Project}
      → source_creation joi event ≡ ok w'
      → Origin joi event items w'
  unfolding source_creation create_from
  source_creation-Origin (project_created header initial) items e =
      let (passes, same) = validate-eq-ok joi _ (map_err-eq-ok _ _ (map_err-eq-ok _ _ e)) in
      created header initial refl (sym same) (subst (IsValid joi) same passes)
  source_creation-Origin event items e = cc

  pub source_event-Origin :
      (event : BusinessEvent) (items : Dict Project) {w' : Project}
      → source_event joi event items ≡ ok w'
      → Origin joi event items w'
  unfolding source_event
  source_event-Origin event items e = elim (Result-cases (get_project_id event)) [
    | inl (_, no_id) ↦ source_creation-Origin event items (rw (no_id, source_event) at e)
    | inr (id, has_id) ↦
        let (w, found, rest) =
          >>=-eq-ok (map_err (get_item joi items id) _) _ (rw (has_id, source_event) at e) in
        changed id w has_id (get_item-eq-ok items id (map_err-eq-ok _ _ found)) rest
  ]

  -- Each project is kept under its own ID and passes the schema but for its log.
  abbrev pub IsSourced : Dict Project → Type 0
  IsSourced = Entries (λ id w. (w.id ≡ id) × IsValid joi w)

  Origin-IsValid :
      {event : BusinessEvent} {items : Dict Project} {w : Project}
      → Origin joi event items w
      → IsValid joi w
  Origin-IsValid (changed id old has found e) = (new_project_from_event-Keeps joi old _ e).1
  Origin-IsValid (created header initial e same valid) = valid

  recorded-IsSourced :
      (event : BusinessEvent) (r : Result Project) (items : Dict Project) (errors : List Failure)
      → source_event joi event items ≡ r
      → IsSourced items
      → IsSourced (recorded joi event r (items, errors)).0
  recorded-IsSourced event (err e) items errors h s = s
  recorded-IsSourced event (ok w) items errors h s =
      Entries-insert (λ id v. (v.id ≡ id) × IsValid joi v) w.id _ items
        (refl, Origin-IsValid (source_event-Origin event items h)) s

  pub source_step-IsSourced :
      (event : BusinessEvent) (items : Dict Project) (errors : List Failure)
      → IsSourced items
      → IsSourced (source_step joi event (items, errors)).0
  unfolding source_step
  source_step-IsSourced event items errors s =
      elim (Bool-cases (starts_with (type_of event) "project_")) [
        | inl relevant ↦
            rw relevant
              (recorded-IsSourced event (source_event joi event items) items errors refl s)
        | inr other ↦ rw other s
      ]

  pub source_from-IsSourced :
      (events : List BusinessEvent) (items : Dict Project) (errors : List Failure)
      → IsSourced items
      → IsSourced (source_from joi events (items, errors)).0
  unfolding source_from
  source_from-IsSourced [] items errors s = s
  source_from-IsSourced (event ∷ events) items errors s =
      source_from-IsSourced events _ _ (source_step-IsSourced event items errors s)

  -- Whatever the stream of events, each project that it leaves is kept under its own ID and
  -- passes, with its log emptied, the schema, if that holds of the projects that it starts from.
  pub source_projects-IsSourced :
      (events : List BusinessEvent) (origin : Dict Project)
      → IsSourced origin
      → IsSourced (source_projects joi events origin).0
  unfolding source_projects
  source_projects-IsSourced events origin s = source_from-IsSourced events origin [] s
