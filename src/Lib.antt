-- ===== src/Lib.antt =====
-- Open Managed Agents: a service that keeps agents, environments and sessions in a relational
-- database and runs the sessions' turns through a queue of work items.
--
-- The parts, and the files that model them:
-- - Prelude: names of the libraries, Boolean tests, lists, a stable sort, a search from the end.
-- - Json: the values of the JSON columns and request bodies (`dict[str, Any]` in app/), with
--   `get`, `put`, truth and type tests as Python has them. Floats are left out. Equal is `==`.
-- - Runtime: what the program takes from Python, the database and the clock (printing and reading
--   moments, `str` and `int` of values, fresh ids, the order of ids), as an interface with the laws
--   that the program relies on. Fixtures has a runtime that meets it.
-- - Db: the rows of app/db/models/domain.py, the tables, and a request's context (app/workspace.py).
-- - Result, Exec: checks that may raise, and handlers. A handler commits only at its end, so an
--   error leaves the database as it was and carries none.
-- - Resources: the queries of app/db/queries/resources.py on `managed_resources`. Queries has the
--   reads, Writes the writes. `ORDER BY … LIMIT` is a stable sort and `take`.
-- - SessionState: app/session_state.py.
-- - Sessions: the queries of app/db/queries/sessions.py and events.py, and the reads of
--   environments.py.
-- - Sessions.Actions, Sessions.Handlers: the handlers of app/routers/sessions.py that send events to
--   a session, cancel, resume, archive and delete it, with the checks on a batch. A handler is cut
--   where its continuation needs a name: send_found, send_open, send_checked and store_batch are
--   the rest of send_events from the point that the name tells.
-- - EventValidation: app/event_validation.py.
-- - Metadata: app/metadata.py.
-- - Pagination: the cursors and `paginate` of app/pagination.py. The JSON and base64 codec is an
--   interface; Tests has one that meets it. ById has `paginate_by_id`.
-- - WorkQueue: app/runtime/work_queue.py. Defs has the leases and their holders' calls, Execute
--   the two transactions around a turn. The turn is an argument there; Runner.Run has it.
-- - Sessions.Live: a stored session and its log through a chain of writes, with the rule of a bind.
-- - Reads: calls that only read.
-- - Memories: the handlers of app/routers/generic_resources.py that create, update and delete a
--   memory of a store. Paths has the paths, Data the dict of a memory, Calls the creation and what
--   the handlers share, Changes the update and the deletion, each cut where its continuation needs
--   a name. What `unicodedata`, `hashlib` and the object-relational mapper do are interfaces. View
--   has what a store holds as a function from its id and a key to a memory's id and content, and
--   Spec there what each call means for it.
-- - SessionResources: app/session_resources.py, with the handlers of app/routers/sessions.py that
--   rotate a token and remove a resource. The object storage is an interface: a removal returns the
--   key of the object that it deletes, if any. Calls has the limits, the stores and the copies of
--   files, Handlers the rest.
-- - Agents: app/db/queries/agents.py; Versions has the writes, Update the configuration that the
--   handler of app/routers/agents.py makes of an update, after its lists are normalised.
-- - Environments: app/routers/environments.py. Config has the checks of app/models/environments.py,
--   Table the queries and handlers on environments, Work the calls of a worker on an item, Poll a
--   poll's rounds and the items taken back from silent workers. A handler returns the row from
--   which its response is made.
-- - Runner: app/runtime/runner.py around the model's run. Turn has the two transactions before the
--   run, Context what they read for it, Finish the transaction after a run that returned, Outcome
--   the grading in it, Retry the one after a failure, Failures the exceptions and the waits (what
--   `int(float(…))` makes of a hint to wait is one of three: not a number, one that overflows, or an
--   integer), and Run the whole of `_run_session_turn`. The run (`_execute`) and what other requests do to the
--   database while it goes on are arguments.
--
-- How the parts interact: a handler reads rows by Resources and Sessions, checks them, and writes
-- them back; WorkQueue leases and closes resources of type environment_work and reads the session
-- that a turn has left.
--
-- Bounds. A moment is a natural number of microseconds since `datetime.min`; integers are unbounded,
-- as in Python. Every loop but a poll's is a recursion on a list. The client of Pagination.Walk has
-- a number of requests, and more of them than there are items is enough. A poll has a number of
-- rounds; 21 are enough for the longest block that the API allows.
-- One request, or one round of a poll, reads one moment, however often the code asks for the time.
-- A status column is an enumeration of the texts that the program writes to it or tests for.
-- The limits of the columns on the lengths of texts and the sizes of integers are left out.
--
-- Not modelled: the HTTP layer and its models, the configuration, the logging, the migrations and
-- the calls of the model providers, which are I/O; and, left for later, the other handlers of
-- app/routers/sessions.py, the responses and paged lists of app/routers/environments.py, the routers
-- of agents, skills, files and the generic resources but memories, the rest of app/pagination.py,
-- the responses of app/session_resources.py, the local backend and the prompts of
-- app/runtime/runner.py, its set of sessions that run in the process, and the object storage.
pub mod Prelude
pub mod Json
pub mod Memories
pub mod Metadata
pub mod Agents
pub mod Environments
pub mod Runner
pub mod Pagination
pub mod Runtime
pub mod Result
pub mod Db
pub mod Exec
pub mod Reads
pub mod Resources
pub mod SessionState
pub mod SessionResources
pub mod Sessions
pub mod WorkQueue
pub mod EventValidation
pub mod Fixtures
