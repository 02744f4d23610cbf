-- ===== src/Lib.antt =====
-- A model of the agent builder's core services, and of what makes them correct.
--
-- The program serves agents: an agent's configuration is validated and stored, its executions are
-- sent to an LLM router, the text of a prompt is gathered from documents and from memory, and the
-- results are cached. The parts that this library models, with the files of the repository:
--
-- * Models models models/memory.go, models/document_context.go, models/agent.go, models/execution.go
--   and the messages of services/agent_service.go.
-- * Memory models services/memory. Memory/ShortTerm is short_term.go, the conversation of a session
--   in Redis; Memory/Working is working_memory.go, the documents and chunks of a session in Redis,
--   with the text helpers of that file in Memory/Tokens; Memory/LongTerm is long_term.go, the
--   client of the vector store; Memory/Consolidation and Memory/Prompts are consolidation.go, the
--   summaries that the router makes of a conversation; Memory/State, Memory/Formatted and
--   Memory/Unified are memory_service.go, the service over the four.
-- * Cache models services/impl/cache_service_impl.go: Cache/Keys the keys and patterns, Cache/Service
--   the cache in Redis or in the process's memory, Cache/Through the document context service that
--   reads through it.
-- * MultiPass models services/impl/multipass_service_impl.go: MultiPass/Segments cuts the documents,
--   MultiPass/Prompts writes the prompts and MultiPass/Execute sends them.
-- * Router models services/impl/router_service_impl.go: Router/Wire and Router/Reliability its
--   messages, Router/Limits the limits on tokens, Router/Send the requests with their retries, and
--   Router/Providers the providers.
-- * Validation models services/impl/validation.go: Validation/Settings the bounds on settings,
--   Validation/Requests the requests to create and to update an agent, with their notebooks.
-- * Hybrid models services/impl/hybrid_context.go: Hybrid/Score the scores of the chunks,
--   Hybrid/Select the duplicates and the tiers, Hybrid/Fit the token budget, Hybrid/Build the whole.
-- * Retrieval models two parts of services/impl/document_context_impl.go: Retrieval/Pages the pages
--   of a file's chunks and Retrieval/Full the chunks of all files, Retrieval/Inject the text of
--   retrieved chunks for a prompt.
-- * Agents models services/impl/agent_service_impl.go, the agents in the database: Agents/Requests
--   what a request makes of an agent, Agents/Service the operations on one agent, Agents/Listing the
--   lists.
-- * Executions models services/impl/execution_service_impl.go: Executions/Service the records of
--   executions, Executions/Lifecycle their states through sequences of calls.
-- * Handlers models handlers/agent_handlers.go, over all of these: Handlers/Config the checks of a
--   configuration and the recommendations, Handlers/Crud the handlers over the agent service,
--   Handlers/Query the query of a list, Handlers/Prompt the system prompt, Handlers/Messages and
--   Handlers/Execute the execution of an agent with its memory, record and request, and
--   Handlers/Internal that of an internal agent. The services are taken through interfaces
--   (`RouterService`, `DocumentContextService`, `MemoryService`), which Handlers/Services fills with
--   the models of the services. A handler is a function of what it reads of the request; its `Reply`
--   is a status with a value, a refusal, or a panic.
--
-- A method of a service is the function of the same name in snake_case. What it reads and changes
-- it takes and returns: the store first, then the clock reading `now` and the ids that the code
-- makes, then its own arguments; a method that writes returns the new store beside its result. A
-- `Result` is the code's value, its error, or a panic.
--
-- Code from outside the repository is a parameter. External has the records of operations:
-- `Redis` (a write without an error is read back and touches no other key, a deleted key is not
-- found), `Codec` (encoding/json at one type, which reads back what it wrote), `UuidText`, and
-- the replies of an HTTP service; External/Expiry adds to Redis that a value is gone when its
-- expiry has passed, with a concrete Redis of that kind. External/Database has the record `Table`
-- of a table of the database (gorm.io/gorm over PostgreSQL): a condition is the meaning of a
-- `WHERE` clause on the record of a row, a statement that reports an error changes nothing, one
-- that reports none has the effect of the SQL, and the rows are in the order in which they are
-- read; a statement that names a column that the table does not have is refused. Ids are primary
-- keys. The values that gorm puts in for the `default` tags of a record are part of the model.
-- Each has a concrete instance in External/Samples, External/Tables or Memory/Samples, at which
-- the examples run. Floats has the operations on float64 without any law, and Json has the
-- decoded JSON objects.
--
-- Bounds. `int` is an integer without a bound (Base/Ints), since the counts of tokens, entries
-- and nanoseconds that the program adds are far below 2^63; division rounds towards zero as Go's
-- does. The loops of the source run over slices, and are recursion on the list, so no fuel is
-- needed; the loop over the pages of a file counts down the code's own limit of 100. A text is
-- its list of bytes (Base/Text), and `len` counts bytes; where the code ranges over runes it only
-- looks for ASCII characters, whose bytes no other character contains. Every `time.Now()` of one
-- call reads one clock value, and a call sees no other client's write between its own reads and
-- writes. Errors of building a request and of marshalling maps of strings, which cannot occur,
-- are left out. A slice or map that is nil and an empty one are the same value, as they are in
-- the code but for the JSON text.
--
-- Not modelled: vector search, the merge of its chunks and the hybrid retrieval in
-- services/impl/document_context_impl.go, which the prompt takes as parameters; notebooks and MCP
-- context (services/impl/notebook_service_impl.go, mcp_context_impl.go); the handlers GetUserStats
-- and GetAgentConfigTemplates, which reply with constants, and the proxy of the router;
-- authentication, configuration, usage statistics, the SQL migrations and the start of the program;
-- log lines; and the constructors that only build a service from its clients.
pub mod Base
pub mod External
pub mod Floats
pub mod Json
pub mod Models
pub mod Memory
pub mod Cache
pub mod MultiPass
pub mod Router
pub mod Validation
pub mod Hybrid
pub mod Retrieval
pub mod Agents
pub mod Executions
pub mod Handlers
