-- ===== src/Lib.antt =====
-- The parts of Orjanda that decide what may happen to a document, and what the theorems show of them.
--
-- Orjanda is a framework for business applications. Applications (app/app.go) declare documents,
-- which a registry compiles (schema/). The Document Engine (document/engine.go) creates, reads,
-- updates, deletes and lists them: it asks the permission engine (perm/engine.go), emits lifecycle
-- events (event/bus.go), validates, writes through the database interface (dal/dal.go) in a
-- transaction and records an audit entry in it (audit/audit.go). The workflow engine
-- (workflow/engine.go) moves a document from state to state in the same way. An agent calls these
-- engines as tools (agent/runtime/), one by one or by a validated plan (agent/planner/planner.go),
-- behind a safety layer (agent/safety/safety.go) that asks for approval and limits rates over a
-- cache (cache/cache.go). Errors have codes (errors/errors.go).
--
-- Prelude    Boolean tests, lists, maps with text keys, signed integers, and the functions of Go's
--            `strings` over ASCII texts.
-- Errors     errors/errors.go: ErrorCode, Error with As, Is and Unwrap, and the results of functions
--            that may fail.
-- Value, Auth, Schema
--            dynamic values, the identity and the values of a context, the compiled documents.
-- Schema.Registry
--            schema/registry.go: RegisterDependency, Register and Compile; Related is Relationships.
-- Perm       perm/engine.go: CheckAction, CheckRoles, FilterRead, FilterWrite, AllowedFields.
-- App        app/app.go: ResolveDAG. The recursion has fuel for its depth, two more than the number
--            of applications, which is enough since each nested call marks one more name.
-- Cache      cache/cache.go: the LRU store, its map and its list with nodes that have addresses;
--            Recency is the abstract list that the store refines.
-- Safety     agent/safety/safety.go: the approval policy; Rate is CheckRateLimit over the cache.
-- Event      event/bus.go: On and Emit.
-- Audit      audit/audit.go: entries, the in-memory log, DiffMaps.
-- Dal        dal/dal.go: the database as a record of operations on a state, methods as functions on
--            the world (the database's state and the entries of an in-memory audit log), and
--            Transaction, which restores the state where its function or the commit fails.
-- Dal.Migrator
--            dal/migrator.go: Diff between the registry and the live tables, and Write with its gate
--            for destructive changes, up to the text of a migration.
-- Workflow   workflow/engine.go: Register, AvailableTransitions and, in Execute, Execute.
-- Document   document/engine.go: the helpers on documents; Engine has Create, Read, Update and
--            Delete, Listing has List.
-- Planner    agent/planner/planner.go: Validate and ValidateArgs.
-- Rpc        api/rpc/rpc.go: the registered methods; Requests is DispatchHandler, up to the answer.
-- Tools      agent/tools/tools.go: Compile and ForIdentity; Schemas is the mapping of fields to JSON
--            schemas, Offer the projection for a caller.
-- Llm        agent/llm/gateway.go: failover, circuit breakers and the counts of tokens.
-- Runtime    agent/runtime/executor.go: executeTool with its gate and approvals, on the sessions of
--            agent/runtime/session.go. Plan is agent/runtime/plan.go: planApproval and
--            runValidatedPlan, and References its resolveRefs. The dispatch to the engines is a
--            parameter of these; Dispatch, Discovery and Operations are the one of executor.go.
--            Sessions is the SessionManager of session.go.
-- Runtime.Turn
--            agent/runtime/runtime.go: chat, toolsForTurn and the tests on a response; Execute has the
--            loop and the plan mode, Start the session and Execute. The loop has fuel for one step
--            more than MaxSteps, where the code gives up.
-- Middleware api/middleware/ratelimit.go: the handler of RateLimit, up to the next one.
--
-- State is passed explicitly, a nil error is `ok`, and a nil service is `none`. Locks make each
-- method one step. A map is an association list in the order in which a `range` meets its keys.
-- Clock readings and generated ULIDs are arguments. Integers are unbounded, which the counts that the
-- code adds up do not tell from 64 bits. Texts are compared and folded over ASCII letters.
--
-- Not modelled: error messages and details, log lines, effects of hooks other than on their document,
-- SQL, HTTP, the language models, and ParseFields (schema/parser.go), which reads Go types by
-- reflection and whose result a registered document carries.
pub mod Prelude
pub mod Errors
pub mod Value
pub mod Auth
pub mod Schema
pub mod Perm
pub mod App
pub mod Cache
pub mod Safety
pub mod Event
pub mod Audit
pub mod Dal
pub mod Workflow
pub mod Document
pub mod Planner
pub mod Runtime
pub mod Middleware
pub mod Rpc
pub mod Tools
pub mod Llm
