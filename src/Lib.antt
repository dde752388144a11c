-- ===== src/Lib.antt =====
-- TruBudget's domain: projects, subprojects and workflowitems whose state is sourced from a stream
-- of business events on a blockchain (api/src/service/domain).
--
-- A command reads the entities, checks the user's permissions and the state, and returns the events
-- to append to the stream, or an error. Sourcing turns the stream back into entities: for each
-- event it finds the entity, lets the event's module mutate it, validates the result by the
-- entity's schema and writes the event to its log; an event that fails is recorded as an error and
-- changes nothing, except that global permissions are changed in place and keep the change.
--
-- The files, by part, with the sources under api/src/service/domain:
-- - Base, Dict, Result: lists, texts and tests; JavaScript's maps as association lists in insertion
--   order; a value or an error (api/src/result.ts, errors/).
-- - Joi: the validation library is outside the repository and a parameter, a record of its tests on
--   texts; the schemas are put together from those tests as the source does.
-- - Regex, Money: the patterns of workflow/money.ts by derivatives; the currency codes.
-- - Intents: api/src/authz/intents.ts.
-- - Event: business_event.ts and the data of the events; Event.Checks the shared schemas,
--   Event.Create the end of every `createEvent`.
-- - Identity: organization/service_user.ts, auth_token.ts, `permits`; Identity.Grants what grants
--   and revocations do to permissions; Budgets: the lists of projected budgets.
-- - Workflowitem: workflow/workflowitem.ts; a child for each event's module (`create_event` for
--   `createEvent`, `mutate` for `mutate`); Workflowitem.EventSourcing for
--   workflow/workflowitem_eventsourcing.ts; Workflowitem.Ordering for
--   workflow/workflowitem_ordering.ts.
-- - Subproject, Project: the same for workflow/subproject*.ts and workflow/project*.ts.
-- - Notification: workflow/notification_created.ts and the loop that tells the users;
--   Notification.EventSourcing and Notification.MarkRead for the notifications of a user.
-- - WorkflowitemTypes: workflowitem_types/.
-- - Commands: the commands in workflow/; a command's repository is a record of functions.
--   Commands.LastUser is the check that a revocation leaves somebody.
-- - GlobalPermissions: workflow/global_permission*.ts, the list and both commands.
-- - Organization: organization/; Organization.Resolve the identities behind a group, and
--   Organization.Group the sourcing of groups and the commands on them. Organization.User is the
--   sourcing of users and the commands that enable and disable them and change their permissions,
--   with the search for a user's assignments of workflow/user_assignments_get.ts;
--   Organization.AuthToken makes a token of a user.
-- - Cache: api/src/service/cache2.ts. Cache.Parse reads the items of a stream, Cache.Refresh asks
--   the node for new items, Cache.Aggregates sources the entities from the new events and fills the
--   lookup tables, Cache.Instance holds the getters that the commands' repositories stand on. The
--   other children hold lemmas and theorems.
-- - Tests: runs at sample data.
--
-- Parameters stand for code outside the repository: Joi and `isEqual` of lodash; the text of
-- `randomString`; the node of the blockchain, which answers the list of streams and a range of a
-- stream's items. What the source takes as an argument is one, too: the repository of a command and
-- the directory of users and groups. So are the parsers that the cache chooses by an event's type,
-- since JSON is not modelled beyond what the cache itself reads of it.
--
-- Functions are total. Two take fuel: `read_batches` of the cache asks for one batch in each round,
-- so more rounds than items left are enough; `resolve_users` goes one group deeper in each round,
-- so the number of identities in a list that is closed under membership, plus one, is enough. All
-- other recursion is structural. Mutation of a copy is a function on values, so the deep copies of
-- the source are the values themselves. A message of an error is the list of its pieces. The clock
-- and the generator of UUIDs are functions of how often they were read. `Array.prototype.sort` is a
-- stable insertion sort; the value of a date is a parameter.
--
-- Not modelled: HTTP routes, RPC, the lock on which writers of the cache wait, the creation of
-- users and the change of passwords, which encrypt and hash, keys, documents beside their
-- references, the creation and the update of a workflowitem as commands, migrations, the frontend
-- and the other services; they are input and output or come later. Of the events of documents,
-- nodes and keys only the type and the header are kept.
pub mod Base
pub mod Result
pub mod Dict
pub mod Joi
pub mod Intents
pub mod Money
pub mod Event
pub mod Identity
pub mod Workflowitem
pub mod Budgets
pub mod Subproject
pub mod Project
pub mod Notification
pub mod WorkflowitemTypes
pub mod Cache
pub mod Organization
pub mod GlobalPermissions
pub mod Commands
pub mod Regex
pub mod Tests
