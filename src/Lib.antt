-- ===== src/Lib.antt =====
-- Cadenza: the parts of the service that decide what happens to the collectors of a fleet.
--
-- A task moves from a request through an approval to the dispatch of a configuration; agents
-- connect over OpAMP, report, and are sent configurations; a language model writes these. The
-- database, the registry of the agents and what waits for them make up one state, `World`.
--
-- - Models: internal/store/models.go, the records that the parts exchange. Times are nanoseconds
--   since the zero time, so 0 is the zero time.
-- - Store: internal/store/sqlstore.go. `Db` holds the tables; a statement is a function on it.
--   What disturbs a statement (a lock of another writer, a failure) is a list in the state, from
--   which each statement takes its turn, so theorems hold for every such list. It comes before the
--   statement takes effect. `exec_ctx` is `execCtx`, with the 3 rounds of its loop; Store/Retry/Once
--   is about the same loop over drivers whose errors leave open whether the statement took effect.
--   Store/Tables has a function for each method of
--   `sqlStore` that the services call; Store/Pages, Store/Lists, Store/Groups, Store/Chats and
--   Store/Runs have the others. A table whose key counts up stands in the order of that key.
-- - Task: internal/task/task.go. `can_transition`, `transition`, `create`, `approve`, `reject` and
--   `set_status` are the functions of these names; they run on `Db` and may raise an error, with
--   what was written before the error kept.
-- - Diff: internal/diff/diff.go. `lcs_ops` has the table (`dp_table`) and the walk (`walk`) of
--   `lcsOps`; Diff/Hunks is `hunks`; Diff/Unified is `splitLines`, `render` and `Unified`. Texts
--   are lists of bytes. The walk recurs on the lines that are left.
-- - Llm: internal/agent/llm.go. A wrapped model is a function on a state of its own, and a stream
--   is the list of responses that the channel gives. Llm/Retry, where the number of retries is an
--   int, is `retryModel` (the loop recurs on
--   the attempts that are left), Llm/Circuit `circuitModel`, with each section under the mutex as
--   a function, and Llm/Cache `cacheModel`, with the digest of the messages as a parameter.
--   Llm/Stack is `NewStableModel`, which puts them around the configured models, for a number of
--   retries that is not negative.
-- - Auth: internal/api/auth.go. The comparison of a password with its hash and the random token
--   are parameters.
-- - Opamp: internal/opampserver. Opamp/Registry is registry.go; Opamp/Server has the handler of
--   messages of server.go, Opamp/Push what the server sends by itself, and Opamp/Connect who may
--   connect. What connections do with a message is a list of outcomes. The server and the task
--   service meet in `Db`, which the registry writes through `upsert_collector`.
-- - Agent: internal/agent. Agent/Confirm is confirm.go: what agents send while a wait sleeps is a
--   list of rounds, and the 31 polls of a wait are one more than there are intervals of 200 ms in
--   six seconds. Agent/Versions and Agent/Dispatch are the tools of tools.go that
--   approve, dispatch, roll back, apply and reject; Agent/Generate has those that generate, optimise
--   and upgrade, with the three attempts of `generateYAML` and the model's answers as a parameter;
--   Agent/Tools has those that only read and calls all of them by name, with Agent/Gits for what is
--   read from the repository, as the call finds it. Agent/Orchestrator is
--   orchestrator.go: `iterate` is the loop of `Chat`, which recurs on the iterations that are left
--   of 6, over a state that has the server, the run and the messages. Agent/Subset is subset.go, over
--   parsed values. The digest of a configuration, the comparison of configurations and the
--   validator are parameters.
-- - Validator: internal/validator/validator.go, over parsed values. What the parser makes of a text
--   and what comes of a run of the collector's binary are parameters.
-- - Git: internal/gitsource/gitsource.go. Git has `validateRef`, `validatePathspec` with the part
--   of filepath.Clean that it needs, and `ExpandPathspec`; Git/Repo has the queries, whose state
--   is the cache and the commands that were sent. What git answers is a parameter.
-- - Config: internal/config/config.go. Config reads an environment, which is a function from names
--   to values, and checks the settings; text is ASCII, and the numbers and durations of the model
--   clients are left out.
-- - Api: internal/api. Api/Changes has the handlers of handlers.go and apply.go that change tasks,
--   with the rollback in Api/Changes/Rollback and, in Api/Sources, the configurations that come
--   from a repository; Api/Chats has the handler of a chat, Api/Gits those of git.go, and Api/Reads
--   those that read, of handlers.go and sessions.go; Api/Params the numbers in a query; Api/Access
--   is mcpauth.go and the routes and origins of router.go; Api/Stats has the figures and handlers
--   of stats.go, with each int64 that may wrap as its bits; Api/System is system.go. The handlers
--   run on the state of Agent, on `Db` where they only read, on the repository, or on `Console`,
--   which has Agent and it.
-- - Mcp: internal/mcp/server.go, the handler of a tool and, in Mcp/Schemas, `convertSchema`, where
--   what it drops of a schema is kept as names and JSON.
-- - Demo: internal/demo/demo.go, the rows of the demo data and `Seed`, which writes them.
-- - Service: the console, the clients of MCP and the agents as events on one state, `Console`, each
--   handled to its end before the next begins.
-- - Examples: concrete runs to which the theorems below apply.
--
-- Not modelled: handlers that interleave, statements that take effect and still report an error
-- (but for Store/Retry/Once), logging, SQL as text, the transports, the wait of a goroutine for the
-- wrapped model's channel, the pages of the console, the reading of YAML, and the filters of a list
-- in a query as text.
pub mod Prelude
pub mod Models
pub mod Store
pub mod Task
pub mod Diff
pub mod Llm
pub mod Auth
pub mod Opamp
pub mod Agent
pub mod Api
pub mod Git
pub mod Config
pub mod Validator
pub mod Mcp
pub mod Demo
pub mod Service
pub mod Examples
