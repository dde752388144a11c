-- ===== src/Cache.antt =====
-- api/src/service/cache2.ts: the state of the cache that stands between the chain and the services,
-- and what `addEventsToCache` stores. A set of texts is a list without repetitions.
pub mod Parse
pub mod Aggregates
pub mod Instance
pub mod Refresh
pub mod Batches
pub mod Streams
pub mod Misses
pub mod InSync
pub mod Refreshed
pub mod Sourced
pub mod Reflects
pub mod Listed
pub mod Children
use tru_budget.Base.{ℕ, String, Bool, false, List, [], ◌∷◌, ◌++◌, if◌then◌else◌, includes}
use tru_budget.Dict.{Dict, lookup_or, insert}
use tru_budget.Event.{BusinessEvent}
use tru_budget.Workflowitem.{Workflowitem}
use tru_budget.Subproject.{Subproject}
use tru_budget.Project.{Project}

-- How recent the cache is in one stream: the last item that it has read.
pub record StreamCursor : Type 0 where
  pub txid : String
  pub index : ℕ

pub record Cache2 : Type 0 where
  pub is_write_locked : Bool
  pub stream_state : Dict StreamCursor
  pub events_by_stream : Dict (List BusinessEvent)
  pub cached_projects : Dict Project
  pub cached_subprojects : Dict Subproject
  pub cached_workflow_items : Dict Workflowitem
  pub cached_subproject_lookup : Dict (List String)
  pub cached_workflowitem_lookup : Dict (List String)

abbrev pub init_cache : Cache2
init_cache = record {
  is_write_locked = false;
  stream_state = [];
  events_by_stream = [];
  cached_projects = [];
  cached_subprojects = [];
  cached_workflow_items = [];
  cached_subproject_lookup = [];
  cached_workflowitem_lookup = [];
}

unfoldable pub clear_cache : Cache2 → Cache2
clear_cache cache = record cache {
  stream_state = [];
  events_by_stream = [];
  cached_projects = [];
  cached_subprojects = [];
  cached_workflow_items = [];
  cached_subproject_lookup = [];
  cached_workflowitem_lookup = [];
}

-- the cases of `addEventsToCache`
abbrev pub kept_streams : List String
kept_streams =
    "global" ∷ "users" ∷ "groups" ∷ "notifications" ∷ "public_keys" ∷ "documents"
    ∷ "system_information" ∷ []

-- `cache.eventsByStream.get(name) || []`
abbrev pub events_of : Cache2 → String → List BusinessEvent
events_of cache name = lookup_or [] name cache.events_by_stream

unfoldable pub add_events_to_cache : Cache2 → String → List BusinessEvent → Cache2
add_events_to_cache cache name new_events =
    if includes kept_streams name
    then record cache {
      events_by_stream = insert name (events_of cache name ++ new_events) cache.events_by_stream;
    }
    else cache
