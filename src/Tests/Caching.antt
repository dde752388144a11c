-- ===== src/Tests/Caching.antt =====
-- The cache at sample data: a stream that is read on, one that was replaced, and a new one.
use tru_budget.Base.{
  ◌≡◌, refl, String, some, none, List, [], ◌∷◌, ◌===◌, if◌then◌else◌, take, drop, keep, All, ===_ne,
  arith,
}
use tru_budget.Result.{ok}
use tru_budget.Event.{other_event}
use tru_budget.Workflowitem.{Workflowitem}
use tru_budget.Dict.{lookup}
use tru_budget.Cache.{Cache2, init_cache}
use tru_budget.Cache.Parse.{Item, Parsers, parse_business_events, filter_ok}
use tru_budget.Cache.Aggregates.{update_aggregates}
use tru_budget.Cache.Instance.{get_workflowitems}
use tru_budget.Cache.Refresh.{done, Node, Stream, is_cached, read_batches, update_cache}
use tru_budget.Cache.Batches.{Serves, read, read_batches-reads}
use tru_budget.Cache.InSync.{InSync, Known, unread, read_before, grown, replaced}
use tru_budget.Cache.Refreshed.{Distinct, Ready, Updated, update_cache-Updated}
use tru_budget.Cache.Reflects.{Reflects, update_aggregates-Reflects, init_cache-Reflects}
use tru_budget.Cache.Children.{
  Answer, TablesAgree, update_aggregates-TablesAgree, get_workflowitems-Answer,
}
use tru_budget.Tests.{joi, header, creation, closing, renaming}

abbrev parsers : Parsers
parsers = record {
  is_inherited = λ name. name === "constructor";
  validate = λ type json. ok (other_event type header);
}

abbrev entry : String → String → Item
entry txid type = record {
  txid = txid;
  json = some (record { intent = ""; type = some type; text = "" });
}

abbrev chain : String → List Item
chain name =
    if name === "global"
    then entry "1" "global_permission_granted" ∷ entry "2" "global_permission_revoked" ∷ []
    else if name === "users"
    then entry "5" "user_created" ∷ entry "6" "unknown" ∷ []
    else if name === "p"
    then entry "7" "project_closed" ∷ []
    else []

abbrev node : Node
node = record {
  streams = done (
      record { name = "global"; kind = some "global"; items = 2 }
      ∷ record { name = "root"; kind = none; items = 9 }
      ∷ record { name = "users"; kind = some "users"; items = 2 }
      ∷ record { name = "p"; kind = some "project"; items = 1 }
      ∷ record { name = "groups"; kind = some "groups"; items = 0 }
      ∷ []);
  liststreamitems = λ name count start. done (take count (drop start (chain name)));
}

abbrev streams : List Stream
streams = elim node.streams [ done ss ↦ ss | _ ↦ [] ]

node-Serves : Serves node chain
node-Serves name count start = refl

-- It has read one item of "global" and three items of "users" that are gone now.
abbrev cache : Cache2
cache = record init_cache {
  stream_state =
      ("global", record { txid = "1"; index = 0 })
      ∷ ("users", record { txid = "4"; index = 2 })
      ∷ [];
  events_by_stream =
      ("global", other_event "global_permission_granted" header ∷ []) ∷ ("users", []) ∷ [];
}

read_batches-reads_example :
    read_batches node 3 "global" 1 [] ≡ done (read 2 (entry "2" "global_permission_revoked" ∷ []))
read_batches-reads_example = read_batches-reads node chain node-Serves "global" 3 1 [] (omega arith)

global-InSync : InSync parsers "global" (entry "1" "global_permission_granted" ∷ []) cache
unfolding parse_business_events filter_ok
global-InSync = record {
  cursor = record { txid = "1"; index = 0 };
  known = refl;
  index = refl;
  txid = refl;
  events = λ kept. refl;
}

users-InSync : InSync parsers "users" (entry "3" "x" ∷ entry "3" "x" ∷ entry "4" "x" ∷ []) cache
unfolding parse_business_events filter_ok
users-InSync = record {
  cursor = record { txid = "4"; index = 2 };
  known = refl;
  index = refl;
  txid = refl;
  events = λ kept. refl;
}

global-Known : Known parsers "global" (chain "global") cache
unfolding global-InSync
global-Known =
    read_before (entry "1" "global_permission_granted" ∷ []) global-InSync
      (grown (entry "2" "global_permission_revoked" ∷ []) refl)

users-Known : Known parsers "users" (chain "users") cache
unfolding users-InSync
users-Known =
    read_before (entry "3" "x" ∷ entry "3" "x" ∷ entry "4" "x" ∷ []) users-InSync
      (replaced (λ e. absurd (omega (arith, e))) refl)

streams-Distinct : Distinct (keep (λ s. is_cached s.kind) streams)
streams-Distinct = (
  (===_ne "users" "global" refl, (===_ne "p" "global" refl, (===_ne "groups" "global" refl, tt))),
  (
    (===_ne "p" "users" refl, (===_ne "groups" "users" refl, tt)),
    ((===_ne "groups" "p" refl, tt), (tt, tt)),
  ),
)

streams-Ready :
    All (Ready joi parsers node chain node-Serves 3 cache) (keep (λ s. is_cached s.kind) streams)
streams-Ready = (
  record { count = refl; enough = omega arith; known = λ h. global-Known },
  (
    record { count = refl; enough = omega arith; known = λ h. users-Known },
    (
      record { count = refl; enough = omega arith; known = λ h. unread refl },
      (record { count = refl; enough = omega arith; known = λ h. unread refl }, tt),
    ),
  ),
)

update_cache-Updated_example :
    Updated joi parsers node chain node-Serves 3 cache
      (keep (λ s. is_cached s.kind) streams)
      (update_cache joi parsers node 3 cache)
update_cache-Updated_example =
    update_cache-Updated joi parsers node chain node-Serves 3 streams cache refl streams-Distinct
      streams-Ready

update_aggregates-Reflects_example : Reflects joi (creation "w1" ∷ closing "w1" ∷ []) (
    update_aggregates joi
      (update_aggregates joi init_cache (creation "w1" ∷ []))
      (closing "w1" ∷ []))
update_aggregates-Reflects_example =
    update_aggregates-Reflects joi (creation "w1" ∷ []) (closing "w1" ∷ [])
      (update_aggregates joi init_cache (creation "w1" ∷ []))
      (update_aggregates-Reflects joi [] (creation "w1" ∷ []) init_cache (init_cache-Reflects joi))

init_cache-TablesAgree : TablesAgree init_cache
init_cache-TablesAgree = record {
  subprojects = record { cached = λ s i h. cc; listed = λ i v e. cc };
  workflowitems = record { cached = λ s i h. cc; listed = λ i v e. cc };
}

update_aggregates-TablesAgree_example :
    TablesAgree (update_aggregates joi init_cache (creation "w1" ∷ renaming "w1" "" ∷ []))
update_aggregates-TablesAgree_example =
    update_aggregates-TablesAgree joi init_cache (creation "w1" ∷ renaming "w1" "" ∷ [])
      init_cache-TablesAgree

get_workflowitems-Answer_example :
    let c = update_aggregates joi init_cache (creation "w1" ∷ []) in
    Answer "subproject"
      (λ (w : Workflowitem). w.subproject_id)
      "s"
      (lookup "s" c.cached_subprojects)
      c.cached_workflow_items
      (get_workflowitems c "s")
get_workflowitems-Answer_example =
    get_workflowitems-Answer (update_aggregates joi init_cache (creation "w1" ∷ [])) "s"
      (update_aggregates-TablesAgree joi init_cache (creation "w1" ∷ []) init_cache-TablesAgree)
