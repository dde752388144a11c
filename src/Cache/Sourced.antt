-- ===== src/Cache/Sourced.antt =====
-- The aggregates of the cache, api/src/service/cache2.ts, against the events that it was given.
use tru_budget.Base.{◌≡◌, refl, ap, ◌∙◌, String, List, [], ◌∷◌}
use tru_budget.Dict.{Dict, values}
use tru_budget.Dict.Entries.{Entries}
use tru_budget.Dict.Writes.{
  Unique, Covers, Unique-insert, Covers-insert, Covers-refl, put_all, put_all-values,
}
use tru_budget.Joi.{Joi}
use tru_budget.Event.{BusinessEvent}
use tru_budget.Workflowitem.{Workflowitem}
use tru_budget.Workflowitem.EventSourcing.{source_workflowitems}
use tru_budget.Workflowitem.EventSourcing.Invariant.{
  IsSourced as WorkflowitemsSourced, source_workflowitems-IsSourced,
}
use tru_budget.Workflowitem.EventSourcing.Stream.{source_workflowitems-rule}
use tru_budget.Subproject.{Subproject}
use tru_budget.Subproject.EventSourcing.{source_subprojects}
use tru_budget.Subproject.EventSourcing.Invariant.{
  IsSourced as SubprojectsSourced, source_subprojects-IsSourced,
}
use tru_budget.Subproject.EventSourcing.Stream.{source_subprojects-rule}
use tru_budget.Project.{Project}
use tru_budget.Project.EventSourcing.{source_projects}
use tru_budget.Project.EventSourcing.Invariant.{
  IsSourced as ProjectsSourced, source_projects-IsSourced,
}
use tru_budget.Project.EventSourcing.Stream.{source_projects-rule}
use tru_budget.Cache.{Cache2}
use tru_budget.Cache.Aggregates.{
  cache_projects, cache_subprojects, cache_workflowitems, update_aggregates,
}

-- The three loops write each value under its ID and leave the other aggregates alone.
cache_projects-puts :
    (ps : List Project) (c : Cache2)
    → (cache_projects ps c).cached_projects ≡ put_all (λ p. p.id) ps c.cached_projects
unfolding cache_projects
cache_projects-puts [] c = refl
cache_projects-puts (p ∷ ps) c = cache_projects-puts ps _

cache_projects-apart :
    (ps : List Project) (c : Cache2)
    → ((cache_projects ps c).cached_subprojects ≡ c.cached_subprojects)
      × ((cache_projects ps c).cached_workflow_items ≡ c.cached_workflow_items)
unfolding cache_projects
cache_projects-apart [] c = (refl, refl)
cache_projects-apart (p ∷ ps) c = cache_projects-apart ps _

cache_subprojects-puts :
    (ss : List Subproject) (c : Cache2)
    → (cache_subprojects ss c).cached_subprojects ≡ put_all (λ s. s.id) ss c.cached_subprojects
unfolding cache_subprojects
cache_subprojects-puts [] c = refl
cache_subprojects-puts (s ∷ ss) c = cache_subprojects-puts ss _

cache_subprojects-apart :
    (ss : List Subproject) (c : Cache2)
    → ((cache_subprojects ss c).cached_projects ≡ c.cached_projects)
      × ((cache_subprojects ss c).cached_workflow_items ≡ c.cached_workflow_items)
unfolding cache_subprojects
cache_subprojects-apart [] c = (refl, refl)
cache_subprojects-apart (s ∷ ss) c = cache_subprojects-apart ss _

cache_workflowitems-puts :
    (ws : List Workflowitem) (c : Cache2)
    → (cache_workflowitems ws c).cached_workflow_items
      ≡ put_all (λ w. w.id) ws c.cached_workflow_items
unfolding cache_workflowitems
cache_workflowitems-puts [] c = refl
cache_workflowitems-puts (w ∷ ws) c = cache_workflowitems-puts ws _

cache_workflowitems-apart :
    (ws : List Workflowitem) (c : Cache2)
    → ((cache_workflowitems ws c).cached_projects ≡ c.cached_projects)
      × ((cache_workflowitems ws c).cached_subprojects ≡ c.cached_subprojects)
unfolding cache_workflowitems
cache_workflowitems-apart [] c = (refl, refl)
cache_workflowitems-apart (w ∷ ws) c = cache_workflowitems-apart ws _

own_keys {ℓ κ} :
    {V : Type ℓ} (id : V → String) (P : V → Type κ) (m : Dict V)
    → Entries (λ k v. (id v ≡ k) × P v) m
    → Entries (λ k v. id v ≡ k) m
own_keys id P [] h = tt
own_keys id P ((k, v) ∷ m) h = (h.0.0, own_keys id P m h.1)

module _ (joi : Joi) where
  abbrev pub projects_of : List BusinessEvent → Dict Project → Dict Project
  projects_of es m = (source_projects joi es m).0

  abbrev pub subprojects_of : List BusinessEvent → Dict Subproject → Dict Subproject
  subprojects_of es m = (source_subprojects joi es m).0

  abbrev pub workflowitems_of : List BusinessEvent → Dict Workflowitem → Dict Workflowitem
  workflowitems_of es m = (source_workflowitems joi es m).0

  -- Writing back what was sourced over a map gives what was sourced.
  projects_back :
      (es : List BusinessEvent) (m : Dict Project)
      → ProjectsSourced joi m
      → Unique m
      → put_all (λ p. p.id) (values (projects_of es m)) m ≡ projects_of es m
  projects_back es m s u =
      put_all-values (λ p. p.id) (projects_of es m) m
        (own_keys (λ p. p.id) _ _ (source_projects-IsSourced joi es m s))
        (source_projects-rule joi Unique (λ k v d h. Unique-insert k v d h) es m u)
        (source_projects-rule joi (Covers m) (λ k v d h. Covers-insert k v m d h) es m
          (Covers-refl m))

  subprojects_back :
      (es : List BusinessEvent) (m : Dict Subproject)
      → SubprojectsSourced joi m
      → Unique m
      → put_all (λ s. s.id) (values (subprojects_of es m)) m ≡ subprojects_of es m
  subprojects_back es m s u =
      put_all-values (λ s. s.id) (subprojects_of es m) m
        (own_keys (λ s. s.id) _ _ (source_subprojects-IsSourced joi es m s))
        (source_subprojects-rule joi Unique (λ k v d h. Unique-insert k v d h) es m u)
        (source_subprojects-rule joi (Covers m) (λ k v d h. Covers-insert k v m d h) es m
          (Covers-refl m))

  workflowitems_back :
      (es : List BusinessEvent) (m : Dict Workflowitem)
      → WorkflowitemsSourced joi m
      → Unique m
      → put_all (λ w. w.id) (values (workflowitems_of es m)) m ≡ workflowitems_of es m
  workflowitems_back es m s u =
      put_all-values (λ w. w.id) (workflowitems_of es m) m
        (own_keys (λ w. w.id) _ _ (source_workflowitems-IsSourced joi es m s))
        (source_workflowitems-rule joi Unique (λ k v d h. Unique-insert k v d h) es m u)
        (source_workflowitems-rule joi (Covers m) (λ k v d h. Covers-insert k v m d h) es m
          (Covers-refl m))

  -- Each entity stands under its own ID, once, and passes its schema.
  pub record IsWellKept (c : Cache2) : Type 0 where
    pub projects : ProjectsSourced joi c.cached_projects
    pub projects_once : Unique c.cached_projects
    pub subprojects : SubprojectsSourced joi c.cached_subprojects
    pub subprojects_once : Unique c.cached_subprojects
    pub workflowitems : WorkflowitemsSourced joi c.cached_workflow_items
    pub workflowitems_once : Unique c.cached_workflow_items

  module _ (c : Cache2) (es : List BusinessEvent) (kept : IsWellKept c) where
    pub update_aggregates-projects :
        (update_aggregates joi c es).cached_projects ≡ projects_of es c.cached_projects
    unfolding update_aggregates
    update_aggregates-projects =
        (cache_workflowitems-apart _ _).0
        ∙ (cache_subprojects-apart _ _).0
        ∙ cache_projects-puts _ c
        ∙ projects_back es c.cached_projects kept.projects kept.projects_once

    pub update_aggregates-subprojects :
        (update_aggregates joi c es).cached_subprojects ≡ subprojects_of es c.cached_subprojects
    unfolding update_aggregates
    update_aggregates-subprojects =
        let before = (cache_projects-apart (values (projects_of es c.cached_projects)) c).0 in
        (cache_workflowitems-apart _ _).1
        ∙ cache_subprojects-puts _ _
        ∙ ap (λ m. put_all (λ s. s.id) (values (subprojects_of es m)) m) before
        ∙ subprojects_back es c.cached_subprojects kept.subprojects kept.subprojects_once

    pub update_aggregates-workflowitems :
        (update_aggregates joi c es).cached_workflow_items
        ≡ workflowitems_of es c.cached_workflow_items
    unfolding update_aggregates
    update_aggregates-workflowitems =
        let first = cache_projects (values (projects_of es c.cached_projects)) c in
        let before =
          (cache_subprojects-apart (values (subprojects_of es first.cached_subprojects)) first).1
          ∙ (cache_projects-apart (values (projects_of es c.cached_projects)) c).1 in
        cache_workflowitems-puts _ _
        ∙ ap (λ m. put_all (λ w. w.id) (values (workflowitems_of es m)) m) before
        ∙ workflowitems_back es c.cached_workflow_items kept.workflowitems kept.workflowitems_once
