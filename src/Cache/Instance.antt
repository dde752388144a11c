-- ===== src/Cache/Instance.antt =====
-- `getCacheInstance` of api/src/service/cache2.ts: what the services read from the cache.
use text.Mathlib.Text.{starts_with}
use tru_budget.Base.{String, Bool, Option, none, some, List, [], ◌∷◌, ◌===◌, ◌||◌, find, keep}
use tru_budget.Result.{Result, ok, err, ◌>>=◌, not_found}
use tru_budget.Dict.{Dict, lookup, values}
use tru_budget.Event.{BusinessEvent, notification_created, notification_marked_read, type_of}
use tru_budget.Workflowitem.{Workflowitem}
use tru_budget.Subproject.{Subproject}
use tru_budget.Project.{Project}
use tru_budget.Cache.{Cache2, events_of}

-- The filter of `getNotificationEvents`: the error that it returns for another type of event is truthy.
abbrev pub user_filter : String → BusinessEvent → Bool
user_filter user (notification_created _ _ recipient _ _ _ _) = recipient === user
user_filter user (notification_marked_read _ _ recipient) = recipient === user
user_filter user event = starts_with (type_of event) "notification_"

unfoldable pub get_notification_events : Cache2 → String → List BusinessEvent
get_notification_events cache user = keep (user_filter user) (events_of cache "notifications")

-- `documentFilter`, `storageServiceUrlFilter` and `secretPhublishedFilter`
abbrev pub document_filter : BusinessEvent → Bool
document_filter event =
    (type_of event === "document_uploaded") || (type_of event === "storage_service_url_published")

abbrev pub storage_service_url_filter : BusinessEvent → Bool
storage_service_url_filter event = type_of event === "storage_service_url_published"

abbrev pub secret_published_filter : BusinessEvent → Bool
secret_published_filter event = type_of event === "secret_published"

unfoldable pub get_document_uploaded_events : Cache2 → List BusinessEvent
get_document_uploaded_events cache = keep document_filter (events_of cache "documents")

unfoldable pub get_storage_service_url_published_events : Cache2 → List BusinessEvent
get_storage_service_url_published_events cache =
    keep storage_service_url_filter (events_of cache "documents")

unfoldable pub get_secret_published_events : Cache2 → List BusinessEvent
get_secret_published_events cache = keep secret_published_filter (events_of cache "documents")

unfoldable pub get_projects : Cache2 → List Project
get_projects cache = values cache.cached_projects

-- `get(id)`, with the error of the getters for an entity that is not there
abbrev pub found {ℓ} : {A : Type ℓ} → String → String → Option A → Result A
found type id none = err (not_found type id)
found type id (some a) = ok a

unfoldable pub get_project : Cache2 → String → Result Project
get_project cache project_id =
    found "project" project_id (find (λ p. p.id === project_id) (get_projects cache))

-- the loops of `getSubprojects` and `getWorkflowitems`
abbrev pub get_all {ℓ} : {A : Type ℓ} → String → List String → Dict A → Result (List A)
get_all type [] entities = ok []
get_all type (id ∷ ids) entities = do
  entity ← found type id (lookup id entities)
  rest ← get_all type ids entities
  ok (entity ∷ rest)

-- Where no IDs are listed, the parent may still exist: it is then without children.
abbrev pub get_listed {ℓ κ} :
    {A : Type ℓ} {B : Type κ}
    → String
    → String
    → String
    → Option (List String)
    → Option B
    → Dict A
    → Result (List A)
get_listed type parent_type parent (some ids) known entities = get_all type ids entities
get_listed type parent_type parent none none entities = err (not_found parent_type parent)
get_listed type parent_type parent none (some _) entities = ok []

unfoldable pub get_subprojects : Cache2 → String → Result (List Subproject)
get_subprojects cache project_id =
    get_listed "subproject" "project" project_id (lookup project_id cache.cached_subproject_lookup)
      (lookup project_id cache.cached_projects) cache.cached_subprojects

unfoldable pub get_subproject : Cache2 → String → Result Subproject
get_subproject cache subproject_id =
    found "subproject" subproject_id (lookup subproject_id cache.cached_subprojects)

unfoldable pub get_workflowitems : Cache2 → String → Result (List Workflowitem)
get_workflowitems cache subproject_id =
    get_listed "workflowitem" "subproject" subproject_id
      (lookup subproject_id cache.cached_workflowitem_lookup)
      (lookup subproject_id cache.cached_subprojects) cache.cached_workflow_items

unfoldable pub get_workflowitem : Cache2 → String → Result Workflowitem
get_workflowitem cache workflowitem_id =
    found "workflowitem" workflowitem_id (lookup workflowitem_id cache.cached_workflow_items)
