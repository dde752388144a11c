-- ===== src/Cache/Aggregates.antt =====
-- `updateAggregates` of api/src/service/cache2.ts: the cached projects, subprojects and workflowitems,
-- and the tables of which belongs to which.
use tru_budget.Base.{String, Option, none, some, List, [], ◌∷◌, ◌++◌, if◌then◌else◌, includes}
use tru_budget.Dict.{Dict, lookup, insert, values}
use tru_budget.Joi.{Joi}
use tru_budget.Event.{BusinessEvent}
use tru_budget.Workflowitem.{Workflowitem}
use tru_budget.Workflowitem.EventSourcing.{source_workflowitems}
use tru_budget.Subproject.{Subproject}
use tru_budget.Subproject.EventSourcing.{source_subprojects}
use tru_budget.Project.{Project}
use tru_budget.Project.EventSourcing.{source_projects}
use tru_budget.Cache.{Cache2}

-- `set.add(id)`
abbrev pub add_to_set : String → List String → List String
add_to_set id set = if includes set id then set else set ++ id ∷ []

-- `new Set([id])` where there is no set yet, and `lookUp.add(id)` where there is one
abbrev pub added : String → Option (List String) → List String
added id none = id ∷ []
added id (some set) = add_to_set id set

unfoldable pub list_under : String → String → Dict (List String) → Dict (List String)
list_under parent id table = insert parent (added id (lookup parent table)) table

-- the three loops
unfoldable pub cache_projects : List Project → Cache2 → Cache2
cache_projects [] cache = cache
cache_projects (p ∷ ps) cache =
    cache_projects ps (record cache { cached_projects = insert p.id p cache.cached_projects })

unfoldable pub cache_subprojects : List Subproject → Cache2 → Cache2
cache_subprojects [] cache = cache
cache_subprojects (s ∷ ss) cache = cache_subprojects ss (record cache {
  cached_subprojects = insert s.id s cache.cached_subprojects;
  cached_subproject_lookup = list_under s.project_id s.id cache.cached_subproject_lookup;
})

unfoldable pub cache_workflowitems : List Workflowitem → Cache2 → Cache2
cache_workflowitems [] cache = cache
cache_workflowitems (w ∷ ws) cache = cache_workflowitems ws (record cache {
  cached_workflow_items = insert w.id w cache.cached_workflow_items;
  cached_workflowitem_lookup = list_under w.subproject_id w.id cache.cached_workflowitem_lookup;
})

module _ (joi : Joi) where
  -- `updateAggregates`; the errors are only logged.
  unfoldable pub update_aggregates : Cache2 → List BusinessEvent → Cache2
  update_aggregates cache new_events =
      let with_projects =
        cache_projects (values (source_projects joi new_events cache.cached_projects).0) cache in
      let with_subprojects =
        cache_subprojects
          (values (source_subprojects joi new_events with_projects.cached_subprojects).0)
          with_projects in
      cache_workflowitems
        (values (source_workflowitems joi new_events with_subprojects.cached_workflow_items).0)
        with_subprojects
