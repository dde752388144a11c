-- ===== src/Cache/Reflects.antt =====
-- What the cache of api/src/service/cache2.ts holds after several calls of `updateAggregates`.
use mathlib.Core.List.{append-nil, append_assoc}
use tru_budget.Base.{◌≡◌, sym, ap, ◌∙◌, subst, List, [], ◌∷◌, ◌++◌}
use tru_budget.Dict.Writes.{Unique, Unique-insert}
use tru_budget.Joi.{Joi}
use tru_budget.Event.{BusinessEvent}
use tru_budget.Project.EventSourcing.Invariant.{
  IsSourced as ProjectsSourced, source_projects-IsSourced,
}
use tru_budget.Project.EventSourcing.Stream.{
  source_projects-append, source_projects-nil, source_projects-rule,
}
use tru_budget.Subproject.EventSourcing.Invariant.{
  IsSourced as SubprojectsSourced, source_subprojects-IsSourced,
}
use tru_budget.Subproject.EventSourcing.Stream.{
  source_subprojects-append, source_subprojects-nil, source_subprojects-rule,
}
use tru_budget.Workflowitem.EventSourcing.Invariant.{
  IsSourced as WorkflowitemsSourced, source_workflowitems-IsSourced,
}
use tru_budget.Workflowitem.EventSourcing.Stream.{
  source_workflowitems-append, source_workflowitems-nil, source_workflowitems-rule,
}
use tru_budget.Cache.{Cache2, init_cache}
use tru_budget.Cache.Aggregates.{update_aggregates}
use tru_budget.Cache.Sourced.{
  IsWellKept, projects_of, subprojects_of, workflowitems_of, update_aggregates-projects,
  update_aggregates-subprojects, update_aggregates-workflowitems,
}

module _ (joi : Joi) where
  -- The cached entities are those that sourcing all the events at once, from nothing, gives.
  pub record Reflects (es : List BusinessEvent) (c : Cache2) : Type 0 where
    pub projects : c.cached_projects ≡ projects_of joi es []
    pub subprojects : c.cached_subprojects ≡ subprojects_of joi es []
    pub workflowitems : c.cached_workflow_items ≡ workflowitems_of joi es []

  projects_once : (es : List BusinessEvent) → Unique (projects_of joi es [])
  projects_once es = source_projects-rule joi Unique (λ k v m h. Unique-insert k v m h) es [] tt

  subprojects_once : (es : List BusinessEvent) → Unique (subprojects_of joi es [])
  subprojects_once es =
      source_subprojects-rule joi Unique (λ k v m h. Unique-insert k v m h) es [] tt

  workflowitems_once : (es : List BusinessEvent) → Unique (workflowitems_of joi es [])
  workflowitems_once es =
      source_workflowitems-rule joi Unique (λ k v m h. Unique-insert k v m h) es [] tt

  pub Reflects-IsWellKept :
      (es : List BusinessEvent) (c : Cache2) → Reflects es c → IsWellKept joi c
  Reflects-IsWellKept es c r = record {
    projects =
        subst (ProjectsSourced joi) (sym r.projects) (source_projects-IsSourced joi es [] tt);
    projects_once = subst Unique (sym r.projects) (projects_once es);
    subprojects =
        subst (SubprojectsSourced joi) (sym r.subprojects)
          (source_subprojects-IsSourced joi es [] tt);
    subprojects_once = subst Unique (sym r.subprojects) (subprojects_once es);
    workflowitems =
        subst (WorkflowitemsSourced joi) (sym r.workflowitems)
          (source_workflowitems-IsSourced joi es [] tt);
    workflowitems_once = subst Unique (sym r.workflowitems) (workflowitems_once es);
  }

  -- A cache that reflects some events reflects those and the new ones after them when
  -- `updateAggregates` has taken the new ones in, whatever they are.
  pub update_aggregates-Reflects :
      (es fs : List BusinessEvent) (c : Cache2)
      → Reflects es c
      → Reflects (es ++ fs) (update_aggregates joi c fs)
  update_aggregates-Reflects es fs c r =
      let kept = Reflects-IsWellKept es c r in
      record {
        projects =
            update_aggregates-projects joi c fs kept
            ∙ ap (projects_of joi fs) r.projects
            ∙ ap (λ p. p.0) (sym (source_projects-append joi es fs []));
        subprojects =
            update_aggregates-subprojects joi c fs kept
            ∙ ap (subprojects_of joi fs) r.subprojects
            ∙ ap (λ p. p.0) (sym (source_subprojects-append joi es fs []));
        workflowitems =
            update_aggregates-workflowitems joi c fs kept
            ∙ ap (workflowitems_of joi fs) r.workflowitems
            ∙ ap (λ p. p.0) (sym (source_workflowitems-append joi es fs []));
      }

  pub init_cache-Reflects : Reflects [] init_cache
  init_cache-Reflects = record {
    projects = ap (λ p. p.0) (sym (source_projects-nil joi []));
    subprojects = ap (λ p. p.0) (sym (source_subprojects-nil joi []));
    workflowitems = ap (λ p. p.0) (sym (source_workflowitems-nil joi []));
  }

  -- the calls of `updateAggregates` for the events of several streams, one after the other
  abbrev pub fill : List (List BusinessEvent) → Cache2 → Cache2
  fill [] c = c
  fill (fs ∷ batches) c = fill batches (update_aggregates joi c fs)

  abbrev pub in_order : List (List BusinessEvent) → List BusinessEvent
  in_order [] = []
  in_order (fs ∷ batches) = fs ++ in_order batches

  fill-Reflects :
      (batches : List (List BusinessEvent)) (es : List BusinessEvent) (c : Cache2)
      → Reflects es c
      → Reflects (es ++ in_order batches) (fill batches c)
  fill-Reflects [] es c r = subst (λ l. Reflects l c) (sym (append-nil es)) r
  fill-Reflects (fs ∷ batches) es c r =
      subst (λ l. Reflects l (fill batches (update_aggregates joi c fs)))
        (append_assoc es fs (in_order batches))
        (fill-Reflects batches (es ++ fs) _ (update_aggregates-Reflects es fs c r))

  -- In whatever batches the events come, the projects, subprojects and workflowitems that the cache
  -- then holds are those that sourcing all events at once, in their order, gives.
  pub fill-Reflects_all :
      (batches : List (List BusinessEvent)) → Reflects (in_order batches) (fill batches init_cache)
  fill-Reflects_all batches = fill-Reflects batches [] init_cache init_cache-Reflects
